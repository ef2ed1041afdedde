-- ===== src/Client/Run/Tally.antt =====
-- Where a chunk is: how often it stands in the queue, under way, or in the log, and whether its bit is set.
use cool_down.Prelude.{
  ℕ, zero, suc, ◌+◌, ◌≡◌, refl, arith, String, Option, none, some, List, [], ◌∷◌, ◌++◌, Bool, true,
  false, ◌&&◌, get_elem?, set, ◌==◌, nat_key, string_key, if◌then◌else◌, Option-cases, Bool-cases,
  inl, inr,
}
use cool_down.Prelude.Int.{ℤ, negsuc}
use cool_down.Prelude.Map.{lookup, insert, lookup-insert, beq_refl}
use cool_down.Outcome.{done, WhenDone, WhenDone-bind, WhenDone-then, or_throw, assertion, ◌>>=◌}
use cool_down.Client.JobInfo.{Bitmap, DownloadInfo, OwnerInfoMap, bitmap_of}
use cool_down.Client.ChunkSelector.{
  ChunkInfo, ChunkQueue, get_chunk, pop_max, get_priority, report_failed_chunk,
  report_no_owner_chunk, report_success_chunk, set_bit, owners_of, new_chunk, failed, noowner,
}
use cool_down.Client.Run.{DownloadTask, Place, looping, left, broken, needs_sock, needs_thread}

abbrev pub as_number : Bool → ℕ
as_number true = 1
as_number false = 0

abbrev pub bit_value : Option Bool → ℕ
bit_value none = 0
bit_value (some b) = as_number b

get_elem?-set :
    (bits : Bitmap) (i n : ℕ) (b : Bool)
    → get_elem? bits i ≡ some b
    → bit_value (get_elem? (set bits i true) n)
      ≡ (if i == n then 1 else bit_value (get_elem? bits n))
get_elem?-set [] i n b e = cc
get_elem?-set (c ∷ bits) zero zero b e = refl
get_elem?-set (c ∷ bits) zero (suc n) b e = ground arith
get_elem?-set (c ∷ bits) (suc i) zero b e = ground arith
get_elem?-set (c ∷ bits) (suc i) (suc n) b e = ground (arith, get_elem?-set bits i n b e)

-- One chunk of one file.
module _ (f : String) (n : ℕ) where
  abbrev pub is : String → ℕ → ℕ
  is fileid chunk_num = as_number (fileid == f && chunk_num == n)

  unfoldable pub queued_count : ChunkQueue → ℕ
  queued_count [] = 0
  queued_count (c ∷ q) = is c.fileid c.chunk_num + queued_count q

  abbrev pub task_count : DownloadTask → ℕ
  task_count t = if t.reported then 0 else is t.fileid t.chunk_pos

  unfoldable pub tasks_count : List DownloadTask → ℕ
  tasks_count [] = 0
  tasks_count (t ∷ ts) = task_count t + tasks_count ts

  abbrev pub place_count : Place → ℕ
  place_count looping = 0
  place_count left = 0
  place_count broken = 0
  place_count (needs_sock c clientid) = is c.fileid c.chunk_num
  place_count (needs_thread fileid c clientid sock) = is fileid c.chunk_num

  unfoldable pub key_count : List (String × ℕ) → ℕ
  key_count [] = 0
  key_count ((g, m) ∷ ks) = is g m + key_count ks

  abbrev pub bit_in : Option Bitmap → ℕ
  bit_in none = 0
  bit_in (some bits) = bit_value (get_elem? bits n)

  unfoldable pub bit_count : DownloadInfo → ℕ
  bit_count d = bit_in (lookup f d.bitmap_map)

  -- The queue.
  pub queued-append : (p q : ChunkQueue) → queued_count (p ++ q) ≡ queued_count p + queued_count q
  unfolding queued_count
  queued-append [] q = omega arith
  queued-append (c ∷ p) q = omega (arith, queued-append p q)

  pop_max-count :
      (c : ChunkInfo) (q : ChunkQueue)
      → is (pop_max c q).0.fileid (pop_max c q).0.chunk_num + queued_count (pop_max c q).1
        ≡ is c.fileid c.chunk_num + queued_count q
  unfolding pop_max queued_count
  pop_max-count c [] = refl
  pop_max-count c (d ∷ q) = grind (arith, pop_max-count c q, pop_max-count d q)

  -- `get_chunk` takes one chunk out, or finds the queue empty.
  abbrev pub taken_count : Option ChunkInfo → ℕ
  taken_count none = 0
  taken_count (some c) = is c.fileid c.chunk_num

  pub get_chunk-count :
      (q : ChunkQueue) → taken_count (get_chunk q).0 + queued_count (get_chunk q).1 ≡ queued_count q
  unfolding get_chunk queued_count
  get_chunk-count [] = refl
  get_chunk-count (c ∷ q) = pop_max-count c q

  get_priority-key :
      (m : OwnerInfoMap) (c : ChunkInfo) (base : ℤ)
      → WhenDone (λ d. (d.fileid ≡ c.fileid) × (d.chunk_num ≡ c.chunk_num)) (get_priority m c base)
  unfolding get_priority
  get_priority-key m c base =
      WhenDone-then _ (or_throw assertion (lookup c.fileid m)) _
        λ list. WhenDone-then _ (owners_of c.chunk_num list) _ λ clients. (refl, refl)

  -- A chunk that is reported stands in the queue once more.
  push-count :
      (m : OwnerInfoMap) (c : ChunkInfo) (base : ℤ) (q : ChunkQueue)
      → WhenDone
          (λ q'. queued_count q' ≡ queued_count q + is c.fileid c.chunk_num)
          (get_priority m c base >>= λ d. done (q ++ d ∷ []))
  unfolding queued_count
  push-count m c base q =
      WhenDone-bind _ (get_priority m c base) _ (get_priority-key m c base) λ d k.
        let same : is d.fileid d.chunk_num ≡ is c.fileid c.chunk_num = rw (k.0, k.1) refl in
        rw (queued-append q (d ∷ [])) (omega (arith, same))

  pub report_failed_chunk-count :
      (m : OwnerInfoMap) (q : ChunkQueue) (chunk_num : ℕ) (fileid : String)
      → WhenDone
          (λ q'. queued_count q' ≡ queued_count q + is fileid chunk_num)
          (report_failed_chunk m q chunk_num fileid)
  unfolding report_failed_chunk
  report_failed_chunk-count m q chunk_num fileid =
      push-count m (new_chunk failed fileid chunk_num) (negsuc 9) q

  pub report_no_owner_chunk-count :
      (m : OwnerInfoMap) (q : ChunkQueue) (chunk_num : ℕ) (fileid : String)
      → WhenDone
          (λ q'. queued_count q' ≡ queued_count q + is fileid chunk_num)
          (report_no_owner_chunk m q chunk_num fileid)
  unfolding report_no_owner_chunk
  report_no_owner_chunk-count m q chunk_num fileid =
      push-count m (new_chunk noowner fileid chunk_num) (negsuc 19) q

  -- The tasks.
  pub tasks-append :
      (ts us : List DownloadTask) → tasks_count (ts ++ us) ≡ tasks_count ts + tasks_count us
  unfolding tasks_count
  tasks-append [] us = omega arith
  tasks-append (t ∷ ts) us = omega (arith, tasks-append ts us)

  bit_count-insert :
      (d : DownloadInfo) (chunk_num : ℕ) (fileid : String) (bits : Bitmap) (b : Bool)
      → lookup fileid d.bitmap_map ≡ some bits
      → get_elem? bits chunk_num ≡ some b
      → bit_in (lookup f (insert fileid (set bits chunk_num true) d.bitmap_map))
        ≡ (if fileid == f && chunk_num == n then 1 else bit_in (lookup f d.bitmap_map))
  bit_count-insert d chunk_num fileid bits b e g =
      rw (lookup-insert fileid f (set bits chunk_num true) d.bitmap_map)
        (elim (Bool-cases (f == fileid)) [
          | inl t ↦
              let same : f ≡ fileid = (string_key.beq_iff f fileid).0 t in
              rw (same, beq_refl fileid, e) (get_elem?-set bits chunk_num n b g)
          | inr t ↦ ground (arith, string_key.beq_iff f fileid, string_key.beq_iff fileid f)
        ])

  -- The bits: `report_success_chunk` sets the one of the chunk, and no other.
  pub report_success_chunk-count :
      (d : DownloadInfo) (chunk_num : ℕ) (fileid : String)
      → WhenDone
          (λ d'. bit_count d' ≡ (if fileid == f && chunk_num == n then 1 else bit_count d))
          (report_success_chunk d chunk_num fileid)
  unfolding report_success_chunk bit_count bitmap_of set_bit
  report_success_chunk-count d chunk_num fileid = elim (Option-cases (lookup fileid d.bitmap_map)) [
    | inl e ↦ rw (e, report_success_chunk, bitmap_of) tt
    | inr (bits, e) ↦ elim (Option-cases (get_elem? bits chunk_num)) [
      | inl g ↦ rw (e, g, report_success_chunk, bitmap_of, set_bit) tt
      | inr (b, g) ↦
          rw (e, g, report_success_chunk, bitmap_of, set_bit)
            (bit_count-insert d chunk_num fileid bits b e g)
    ]
  ]
