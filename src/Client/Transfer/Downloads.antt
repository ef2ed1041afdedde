-- ===== src/Client/Transfer/Downloads.antt =====
-- What a download task does to the file.
use cool_down.Prelude.{
  ℕ, zero, suc, ◌+◌, ◌-◌, ◌^◌, if◌then◌else◌, ◌≤◌, ◌<◌, min, ◌≡◌, refl, sym, ap, ◌∙◌, ◌⊎◌, inl, inr,
  String, List, ◌++◌, Bool, true, false, length, take, drop, ltb, leb, arith, All, length-take,
  ◌==◌, string_key,
}
use cool_down.Prelude.Map.{beq_refl}
use cool_down.Prelude.Int.{ℤ, pos, to_i32-small}
use cool_down.Outcome.{Outcome, done, throw, exception, ◌>>=◌, >>=-eq-done}
use cool_down.Client.Torrent.{TorrentFileInfo, chunk_checksum, chunk_offset, chunk_size}
use cool_down.Client.TrackerCalls.{Exchange}
use cool_down.Client.Verification.{DigestEngine}
use cool_down.Client.Verification.Pieces.{get_verification_code-digest_of}
use cool_down.Client.Transfer.{
  Round, Status, running, finished, failed, move, Moved, moved, nothing, transfer_loop,
  download_turn, download_task, request_upload, buffer_size, receive, write_file, store_chunk,
  conclude,
}
use cool_down.Client.Transfer.Loop.{IsReady}
use cool_down.Client.Transfer.Chunks.{transfer_loop_moves, All-map}

-- A round of a download that is neither stopped nor removed nor paused, whose limit is an `int` and
-- is not reached, and at which the connection has a byte.
abbrev pub CanReceive : Round → Type 0
CanReceive r =
    (r.is_stopped ≡ false)
    × (r.is_job_removed ≡ false)
    × (r.is_download_paused ≡ false)
    × (r.bytes_this_second < r.speed_limit)
    × (r.speed_limit < 2 ^ 31)
    × (0 < r.ready)

receive-move :
    (q left ready : ℕ)
    → 0 < q
    → 0 < left
    → 0 < ready
    → (n : ℕ) × (receive (pos q) left ready ≡ move n) × (0 < n) × (n ≤ left)
receive-move zero left ready h k p = absurd (omega arith)
receive-move (suc q) left ready h k p =
    (min ready (if ltb left (suc q) then left else suc q), refl, ground arith, ground arith)

CanReceive-IsReady : (r : Round) → CanReceive r → IsReady download_turn r
unfolding download_turn
CanReceive-IsReady r (a, b, c, d, l, p) = λ left h.
    let quota = r.speed_limit - r.bytes_this_second in
    let (n, e, pos_n, small) = receive-move quota left r.ready (omega arith) h p in
    let below : ltb r.speed_limit r.bytes_this_second ≡ false = ground arith in
    (n, rw (download_turn, a, b, c, below, to_i32-small quota (omega arith)) e, pos_n, small)

if-done {ℓ} :
    {A : Type ℓ} (b : Bool) (m : Outcome A) {a : A}
    → (if b then m else throw exception) ≡ done a
    → (b ≡ true) × (m ≡ done a)
if-done true m h = (refl, h)
if-done false m h = cc

module _ (sha : DigestEngine) where
  open sha use {Engine, digest_of}

  -- The content is verified, and written at the offset of the chunk.
  abbrev pub Stores : TorrentFileInfo → ℤ → String → List ℕ → List ℕ → List ℕ → Type 0
  Stores info chunk_pos check_sum content file file' =
      (offset : ℕ) × (digest_of content ≡ check_sum)
      × (chunk_offset info chunk_pos ≡ done offset)
      × (write_file file offset content ≡ done file')

  abbrev pub IsStored : TorrentFileInfo → ℤ → String → List ℕ → List ℕ → Type 0
  IsStored info chunk_pos check_sum file file' =
      (content : List ℕ) × (offset : ℕ) × (digest_of content ≡ check_sum)
      × (chunk_offset info chunk_pos ≡ done offset)
      × (write_file file offset content ≡ done file')

  pub store_chunk-done :
      (info : TorrentFileInfo) (chunk_pos : ℤ) (check_sum : String) (content : List ℕ) (e : Engine)
      (file file' : List ℕ)
      → store_chunk sha info chunk_pos check_sum content e file ≡ done file'
      → Stores info chunk_pos check_sum content file file'
  unfolding store_chunk
  store_chunk-done info chunk_pos check_sum content e file file' h =
      let (e', code) = get_verification_code-digest_of sha content e in
      let after : (offset : ℕ) → Outcome (List ℕ) = λ offset.
        if digest_of content == check_sum
        then write_file file offset content
        else throw exception in
      let tail : (chunk_offset info chunk_pos >>= after) ≡ done file' =
        sym (rw (store_chunk, code) refl) ∙ h in
      let (offset, at, written) = >>=-eq-done (chunk_offset info chunk_pos) after tail in
      let (same, ok) =
        if-done (digest_of content == check_sum) (write_file file offset content) written in
      (offset, (string_key.beq_iff (digest_of content) check_sum).0 same, at, ok)

  conclude-done :
      (info : TorrentFileInfo) (chunk_pos : ℤ) (check_sum : String) (e : Engine) (file : List ℕ)
      (out : Status × Moved) (s : Status) (file' : List ℕ)
      → conclude sha info chunk_pos check_sum e file out ≡ done (s, file')
      → (file' ≡ file) ⊎ IsStored info chunk_pos check_sum file file'
  conclude-done info chunk_pos check_sum e file (running, m) s file' h =
      let same : file' ≡ file = cc in inl same
  conclude-done info chunk_pos check_sum e file (failed, m) s file' h = cc
  conclude-done info chunk_pos check_sum e file (finished, m) s file' h =
      let (stored, ok, rest) =
        >>=-eq-done (store_chunk sha info chunk_pos check_sum m.bytes e file)
          (λ (f : List ℕ). done (finished, f)) h in
      let same : stored ≡ file' = cc in
      let (offset, digest, at, written) =
        store_chunk-done info chunk_pos check_sum m.bytes e file file' (ok ∙ ap done same) in
      inr (m.bytes, offset, digest, at, written)

  -- Whatever the peer sends and at any schedule, a download task that does not leave by an exception
  -- has left the file as it was, or has written at the offset of the chunk bytes whose digest is the
  -- checksum that the torrent has for the chunk, and nothing else.
  pub download_task_verified :
      (info : TorrentFileInfo) (chunk_pos : ℤ) (x : Exchange) (peer : List ℕ) (rounds : List Round)
      (e : Engine) (file : List ℕ) (s : Status) (file' : List ℕ)
      → download_task sha info chunk_pos x peer rounds e file ≡ done (s, file')
      → (file' ≡ file)
        ⊎ ((check_sum : String) × (chunk_checksum info chunk_pos ≡ done check_sum)
            × IsStored info chunk_pos check_sum file file')
  unfolding download_task
  download_task_verified info chunk_pos x peer rounds e file s file' h =
      let (check_sum, sum, h1) = >>=-eq-done (chunk_checksum info chunk_pos) _ h in
      let (u, asked, h2) = >>=-eq-done (request_upload x) _ h1 in
      let (recorded, given, h3) = >>=-eq-done (chunk_size info chunk_pos) _ h2 in
      let (size, positive, h4) = >>=-eq-done (buffer_size recorded) _ h3 in
      elim (conclude-done info chunk_pos check_sum e file
        (transfer_loop download_turn size nothing peer rounds) s file' h4) [
          | inl same ↦ inl same
          | inr stored ↦ inr (check_sum, sum, stored)
        ]

  store_chunk-good :
      (info : TorrentFileInfo) (chunk_pos : ℤ) (check_sum : String) (content : List ℕ) (e : Engine)
      (file : List ℕ) (offset : ℕ)
      → digest_of content ≡ check_sum
      → chunk_offset info chunk_pos ≡ done offset
      → store_chunk sha info chunk_pos check_sum content e file ≡ write_file file offset content
  unfolding store_chunk
  store_chunk-good info chunk_pos check_sum content e file offset d at =
      let (e', code) = get_verification_code-digest_of sha content e in
      rw (store_chunk, code, at, d, beq_refl check_sum) refl

  -- When the peer accepts and sends a chunk with the right digest, and the chunk lies inside the file,
  -- as many rounds as it has bytes are enough: with rounds that are not stopped, removed or paused,
  -- are under the speed limit and have a byte, the task finishes, and the file is the old one with the
  -- chunk in its place.
  pub download_task_finishes :
      (info : TorrentFileInfo) (chunk_pos : ℤ) (x : Exchange) (peer : List ℕ) (rounds : List Round)
      (e : Engine) (file : List ℕ) (size offset : ℕ)
      → request_upload x ≡ done tt
      → chunk_checksum info chunk_pos ≡ done (digest_of (take size peer))
      → chunk_size info chunk_pos ≡ done (pos size)
      → chunk_offset info chunk_pos ≡ done offset
      → size ≤ length peer
      → offset + size ≤ length file
      → All CanReceive rounds
      → size ≤ length rounds
      → download_task sha info chunk_pos x peer rounds e file
        ≡ done (finished, take offset file ++ take size peer ++ drop (offset + size) file)
  unfolding download_task
  download_task_finishes info chunk_pos x peer rounds e file size offset ask sum given at all inside
        ready enough =
      let content = take size peer in
      let run : transfer_loop download_turn size nothing peer rounds
          ≡ (finished, moved content size) =
        transfer_loop_moves download_turn size peer rounds (All-map CanReceive-IsReady rounds ready)
          enough all in
      let whole : length content ≡ size = ground (arith, length-take {0} size peer) in
      let fits : leb (offset + length content) (length file) ≡ true = ground arith in
      rw
        (
          download_task,
          sum,
          ask,
          given,
          run,
          store_chunk-good info chunk_pos (digest_of content) content e file offset refl at,
          fits,
          whole,
        )
        refl
