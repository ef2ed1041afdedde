-- ===== src/Client/Run/Refinement.antt =====
-- A run against what it promises of one chunk: the chunk is wanted until a task has it, and then it is
-- there, or is wanted again, or is lost.
use cool_down.Prelude.{
  ℕ, ◌+◌, ◌≤◌, ◌≡◌, refl, ap, ◌∙◌, arith, String, Bool, ◌==◌, nat_key, string_key, if◌then◌else◌,
  ◌&&◌,
}
use cool_down.Client.Bitmaps.{Blocks}
use cool_down.Client.Run.{Run, DownloadTask}
use cool_down.Client.Run.Steps.{
  Step, Reach, start, later, turns, turn_throws, wakes, wake_throws, launches, fails, fail_throws,
  finishes, finish_throws, return_throws, sets, elsewhere,
}
use cool_down.Client.Run.Tally.{
  as_number, task_count, queued_count, tasks_count, place_count, key_count, bit_count,
}
use cool_down.Client.Run.Moves.{IsKeyed}
use cool_down.Client.Run.Rounds.{Advances, turn-Advances, ask_sock-Advances}
use cool_down.Client.Run.Reports.{
  Launches, launch-Launches, given_up-Launches, Abandons, unwound-Abandons, stuck-Finishes, Fails,
  on_failed-Fails, Finishes, on_finished-Finishes,
}

pub data Phase : Type 0 where
  queued in_flight finished lost : Phase

infix 40 ◌⟶◌ ◌⟶*◌
pub data ◌⟶◌ : Phase → Phase → Type 0 where
  stay : {p : Phase} → p ⟶ p
  abandon : queued ⟶ lost
  take : queued ⟶ in_flight
  give_back : in_flight ⟶ queued
  succeed : in_flight ⟶ finished
  lose : in_flight ⟶ lost

pub data ◌⟶*◌ : Phase → Phase → Type 0 where
  here : {p : Phase} → p ⟶* p
  onward : {p q r : Phase} → p ⟶* q → q ⟶ r → p ⟶* r

ruleset edges = (stay, abandon, take, give_back, succeed, lose)

-- The phase by the bit, the queue and what is under way.
abbrev pub phase_of : ℕ → ℕ → ℕ → Phase
phase_of b q t =
    if b == 1 then finished else if t == 1 then in_flight else if q == 1 then queued else lost

advanced :
    (b q t d b' q' t' d' : ℕ)
    → b + q + t + d ≡ 1
    → b' ≡ b
    → d' ≡ d
    → q' + t' ≡ q + t
    → t ≤ t'
    → phase_of b q t ⟶ phase_of b' q' t'
advanced b q t d b' q' t' d' one eb ed e le = grind (arith, edges)

launched :
    (b q t d b' q' t' d' : ℕ)
    → b + q + t + d ≡ 1
    → b' ≡ b
    → q' ≡ q
    → t' + d' ≡ t + d
    → d ≤ d'
    → phase_of b q t ⟶ phase_of b' q' t'
launched b q t d b' q' t' d' one eb eq e le = grind (arith, edges)

went_back :
    (b q t d b' q' t' d' : ℕ)
    → b + q + t + d ≡ 1
    → b' ≡ b
    → d' ≡ d
    → q' + t' ≡ q + t
    → t' ≤ t
    → phase_of b q t ⟶ phase_of b' q' t'
went_back b q t d b' q' t' d' one eb ed e le = grind (arith, edges)

ended :
    (b q t d b' q' t' d' : ℕ)
    → b + q + t + d ≡ 1
    → q' ≡ q
    → d' ≡ d
    → b' + t' ≡ b + t
    → b ≤ b'
    → phase_of b q t ⟶ phase_of b' q' t'
ended b q t d b' q' t' d' one eq ed e le = grind (arith, edges)

abandoned :
    (b q t d b' q' t' d' : ℕ)
    → b + q + t + d ≡ 1
    → b' ≡ b
    → t' ≡ t
    → q' + d' ≡ q + d
    → d ≤ d'
    → phase_of b q t ⟶ phase_of b' q' t'
abandoned b q t d b' q' t' d' one eb et e le = grind (arith, edges)

bit_set :
    (r x : Bool) (b b' : ℕ)
    → b' ≡ (if r then b else if x then 1 else b)
    → b + (if r then 0 else as_number x) ≤ 1
    → b' ≡ b + (if r then 0 else as_number x)
bit_set r x b b' e le = ground arith

module _ (f : String) (n : ℕ) where
  -- How often the thread of the job holds the chunk or a task that is not reported has it.
  abbrev pub flying_count : Run → ℕ
  flying_count s = tasks_count f n s.tasks + place_count f n s.place

  -- All places of the chunk.
  abbrev pub total : Run → ℕ
  total s =
      bit_count f n s.info.download_info
      + queued_count f n s.queue
      + flying_count s
      + key_count f n s.dropped

  -- The phase of a chunk that has one place.
  abbrev pub phase : Run → Phase
  phase s =
      phase_of (bit_count f n s.info.download_info) (queued_count f n s.queue) (flying_count s)

  advance : (s s' : Run) → Advances f n s s' → total s ≡ 1 → (total s' ≡ 1) × (phase s ⟶ phase s')
  advance s s' h one =
      let t : tasks_count f n s'.tasks ≡ tasks_count f n s.tasks = ap (tasks_count f n) h.tasks in
      let d : key_count f n s'.dropped ≡ key_count f n s.dropped = ap (key_count f n) h.dropped in
      let e : queued_count f n s'.queue + flying_count s'
          ≡ queued_count f n s.queue + flying_count s =
        omega (arith, h.count, t) in
      let le : flying_count s ≤ flying_count s' = omega (arith, h.more, t) in
      (omega (arith, h.bit, d, e, one), advanced _ _ _ _ _ _ _ _ one h.bit d e le)

  launching : (s s' : Run) → Launches f n s s' → total s ≡ 1 → (total s' ≡ 1) × (phase s ⟶ phase s')
  launching s s' h one =
      let b : bit_count f n s'.info.download_info ≡ bit_count f n s.info.download_info =
        ap (λ j. bit_count f n j.download_info) h.info in
      let q : queued_count f n s'.queue ≡ queued_count f n s.queue =
        ap (queued_count f n) h.queue in
      (omega (arith, b, q, h.count, one), launched _ _ _ _ _ _ _ _ one b q h.count h.more)

  failing :
      (t : DownloadTask) (s s' : Run)
      → Fails f n t s s'
      → total s ≡ 1
      → (total s' ≡ 1) × (phase s ⟶ phase s')
  failing t s s' h one =
      let b : bit_count f n s'.info.download_info ≡ bit_count f n s.info.download_info =
        ap (λ j. bit_count f n j.download_info) h.info in
      let d : key_count f n s'.dropped ≡ key_count f n s.dropped = ap (key_count f n) h.dropped in
      let p : place_count f n s'.place ≡ place_count f n s.place = ap (place_count f n) h.place in
      let e : queued_count f n s'.queue + flying_count s'
          ≡ queued_count f n s.queue + flying_count s =
        omega (arith, h.count, p) in
      let le : flying_count s' ≤ flying_count s = omega (arith, h.less, p) in
      (omega (arith, b, d, e, one), went_back _ _ _ _ _ _ _ _ one b d e le)

  abandoning :
      (s s' : Run) → Abandons f n s s' → total s ≡ 1 → (total s' ≡ 1) × (phase s ⟶ phase s')
  abandoning s s' h one =
      let b : bit_count f n s'.info.download_info ≡ bit_count f n s.info.download_info =
        ap (bit_count f n) h.download in
      let t : tasks_count f n s'.tasks ≡ tasks_count f n s.tasks = ap (tasks_count f n) h.tasks in
      let fly : flying_count s' ≡ flying_count s = omega (arith, t, h.place) in
      (omega (arith, b, fly, h.count, one), abandoned _ _ _ _ _ _ _ _ one b fly h.count h.more)

  finishing :
      (t : DownloadTask) (s s' : Run)
      → Finishes f n t s s'
      → total s ≡ 1
      → (total s' ≡ 1) × (phase s ⟶ phase s')
  finishing t s s' h one =
      let q : queued_count f n s'.queue ≡ queued_count f n s.queue =
        ap (queued_count f n) h.queue in
      let d : key_count f n s'.dropped ≡ key_count f n s.dropped = ap (key_count f n) h.dropped in
      let p : place_count f n s'.place ≡ place_count f n s.place = ap (place_count f n) h.place in
      let b : bit_count f n s'.info.download_info
          ≡ bit_count f n s.info.download_info + task_count f n t =
        bit_set t.reported (t.fileid == f && t.chunk_pos == n) _ _ h.bit
          (omega (arith, one, h.count)) in
      let e : bit_count f n s'.info.download_info + flying_count s'
          ≡ bit_count f n s.info.download_info + flying_count s =
        omega (arith, b, h.count, p) in
      let le : bit_count f n s.info.download_info ≤ bit_count f n s'.info.download_info =
        omega (arith, b) in
      (omega (arith, q, d, e, one), ended _ _ _ _ _ _ _ _ one q d e le)

  module _ (boost : Blocks) (self_id : String) where
    pub Step-moves :
        (s s' : Run)
        → Step boost self_id s s'
        → IsKeyed s.info.torrent_info
        → total s ≡ 1
        → (s'.info.torrent_info ≡ s.info.torrent_info) × ((total s' ≡ 1) × (phase s ⟶ phase s'))
    unfolding bit_count
    Step-moves s s' (turns signalled x fresh top e) keyed one =
        let h : Advances f n s s' =
          rw e at (turn-Advances boost self_id f n signalled x fresh s keyed top) in
        (h.torrent, advance s s' h one)
    Step-moves s s' (wakes c clientid fresh waits e) keyed one =
        let h : Advances f n s s' =
          rw e at (ask_sock-Advances boost self_id f n c clientid fresh s keyed waits) in
        (h.torrent, advance s s' h one)
    Step-moves s _ (launches available starts fileid c clientid sock waits) keyed one =
        let h = launch-Launches f n available starts fileid c clientid sock s waits in
        (ap (λ j. j.torrent_info) h.info, launching s _ h one)
    Step-moves s s' (fails before t after among fresh e) keyed one =
        let h : Fails f n t s s' = rw e at (on_failed-Fails f n before t after s among fresh) in
        (ap (λ j. j.torrent_info) h.info, failing t s s' h one)
    Step-moves s s' (finishes before t after among e) keyed one =
        let h : Finishes f n t s s' = rw e at (on_finished-Finishes f n before t after s among) in
        (h.torrent, finishing t s s' h one)
    Step-moves s _ (turn_throws signalled x fresh e owners top raised) keyed one =
        let h = unwound-Abandons f n owners s top in (h.torrent, abandoning s _ h one)
    Step-moves s _ (wake_throws c clientid fresh e waits raised) keyed one =
        let h = given_up-Launches f n c clientid s waits in (refl, launching s _ h one)
    Step-moves s _ (fail_throws before t after e among fresh raised) keyed one = (refl, (one, stay))
    Step-moves s _ (finish_throws before t after e among raised) keyed one = (refl, (one, stay))
    Step-moves s _ (return_throws before t after d e among bits raised) keyed one =
        let h = stuck-Finishes f n before t after d s among bits in (refl, finishing t s _ h one)
    Step-moves s _ (sets removed stopped paused) keyed one = (refl, (one, stay))
    Step-moves s _ (elsewhere m) keyed one = (refl, (one, stay))

    -- The torrent gives each file under its own id, and the chunk has one place: its bit is set, or it
    -- stands in the queue, or the thread of the job or a task has it, or it is lost, since its task
    -- could not be started or an exception has ended the thread of the job. Then in every
    -- interleaving of the threads, with exceptions, the chunk has one place, and its phase moves only
    -- along the diagram: from the queue it is taken, or lost in the same round, and once taken it goes
    -- back to the queue, or its bit is set, or it is lost; a chunk that is there, or is lost, stays so.
    pub Reach-follows :
        (s t : Run)
        → Reach boost self_id s t
        → IsKeyed s.info.torrent_info
        → total s ≡ 1
        → (total t ≡ 1) × (phase s ⟶* phase t)
    Reach-follows s t r keyed one = (go t r).1
      where
        go :
            (t : Run)
            → Reach boost self_id s t
            → (t.info.torrent_info ≡ s.info.torrent_info) × ((total t ≡ 1) × (phase s ⟶* phase t))
        go _ start = (refl, (one, here))
        go u (later {t} r step) =
            let (e, (one', way)) = go t r in
            let (e', (one'', edge)) = Step-moves t u step (rw e keyed) one' in
            (e' ∙ e, (one'', onward way edge))
