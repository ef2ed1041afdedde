-- ===== src/Client/ChunkSelector/Priority.antt =====
-- The order in which `get_chunk` takes the chunks, and the ranks that `get_priority` gives.
use mathlib.Core.List.{Perm}
use mathlib.Core.List.Perm
use cool_down.Prelude.{
  ℕ, ◌≤◌, ◌<◌, ◌≡◌, refl, List, [], ◌∷◌, arith, some, All, Bool-cases, inl, inr, length,
  if◌then◌else◌, ◌∙◌, String, ◌++◌, string_key,
}
use cool_down.Prelude.Int.{ℤ, pos, negsuc, ◌+ℤ◌, ◌≤ℤ◌, ltb_ℤ}
use cool_down.Outcome.{done, Returns}
use cool_down.Client.ChunkSelector.{
  ChunkInfo, ChunkQueue, rank, pop_max, get_chunk, ChunkStatus, noowner, failed,
  report_no_owner_chunk, report_failed_chunk, get_priority, owners_of, new_chunk,
}
use mathlib.Core.Path.{subst, subst⁻¹}
use cool_down.Prelude.Map.{lookup}
use cool_down.Client.JobInfo.{OwnerInfoMap, FileOwnerInfo}

-- The priority of every entry is at most the given one.
abbrev pub IsBounded : ℤ → ChunkQueue → Type 0
IsBounded p = All λ c. c.priority ≤ℤ p

pop_max-perm : (c : ChunkInfo) (q : ChunkQueue) → Perm (c ∷ q) ((pop_max c q).0 ∷ (pop_max c q).1)
unfolding pop_max
pop_max-perm c [] = Perm.refl _
pop_max-perm c (d ∷ q) = elim (Bool-cases (ltb_ℤ c.priority d.priority)) [
  | inl e ↦
      rw (e, pop_max) (Perm.trans (Perm.cons c (pop_max-perm d q)) (Perm.swap (pop_max d q).0 c _))
  | inr e ↦
      rw (e, pop_max)
        (Perm.trans (Perm.swap d c q)
          (Perm.trans (Perm.cons d (pop_max-perm c q)) (Perm.swap (pop_max c q).0 d _)))
]

pop_max-cons :
    (c d : ChunkInfo) (q : ChunkQueue)
    → (pop_max c (d ∷ q)).0 ≡ (pop_max (if ltb_ℤ c.priority d.priority then d else c) q).0
unfolding pop_max
pop_max-cons c d q = refl

pop_max-IsBounded : (c : ChunkInfo) (q : ChunkQueue) → IsBounded (pop_max c q).0.priority (c ∷ q)
pop_max-IsBounded c [] = unfold pop_max in omega arith
pop_max-IsBounded c (d ∷ q) = elim (Bool-cases (ltb_ℤ c.priority d.priority)) [
  | inl e ↦
      let (top, others) = pop_max-IsBounded d q in
      bounded d (pop_max-cons c d q ∙ rw e refl) (ground arith, (top, others))
  | inr e ↦
      let (top, others) = pop_max-IsBounded c q in
      bounded c (pop_max-cons c d q ∙ rw e refl) (top, (ground arith, others))
]
  where
    bounded :
        (m : ChunkInfo)
        → (pop_max c (d ∷ q)).0 ≡ (pop_max m q).0
        → IsBounded (pop_max m q).0.priority (c ∷ d ∷ q)
        → IsBounded (pop_max c (d ∷ q)).0.priority (c ∷ d ∷ q)
    bounded m e = subst⁻¹ (λ (x : ChunkInfo). IsBounded x.priority (c ∷ d ∷ q)) e

-- `get_chunk` on a queue that is not empty takes a chunk whose priority no other exceeds, and leaves
-- exactly the other entries.
pub get_chunk_max :
    (q rest : ChunkQueue) (m : ChunkInfo)
    → get_chunk q ≡ (some m, rest)
    → IsBounded m.priority q × Perm q (m ∷ rest)
unfolding get_chunk
get_chunk_max [] rest m h = cc
get_chunk_max (c ∷ q) rest m h =
    let top : (pop_max c q).0 ≡ m = ground arith in
    let left : (pop_max c q).1 ≡ rest = ground arith in
    (
      subst (λ (p : ChunkInfo). IsBounded p.priority (c ∷ q)) top (pop_max-IsBounded c q),
      rw (← top, ← left) (pop_max-perm c q),
    )

-- Of two chunks that some client has, the one with fewer owners does not rank lower; a chunk that no
-- client has ranks below both.
rank_antitone :
    (few many : ℕ) → 0 < few → few ≤ many → (rank many ≤ rank few) × (rank 0 < rank many)
unfolding rank
rank_antitone few many h k = ground arith

-- What a report pushes: one entry, with the status of the report and the given bound on its priority.
abbrev Pushed : ChunkStatus → ℕ → String → ℤ → ChunkQueue → ChunkQueue → Type 0
Pushed status chunk_num fileid bound q q' =
    (c : ChunkInfo) × (q' ≡ q ++ c ∷ [])
    × (c.status ≡ status)
    × (c.chunk_num ≡ chunk_num)
    × (c.fileid ≡ fileid)
    × (c.priority ≤ℤ bound)

rank_le : (n : ℕ) → rank n ≤ 19
unfolding rank
rank_le n = ground arith

get_priority-done :
    (m : OwnerInfoMap) (c : ChunkInfo) (base : ℤ) (os clients : List FileOwnerInfo)
    → lookup c.fileid m ≡ some os
    → owners_of c.chunk_num os ≡ done clients
    → get_priority m c base
      ≡ done (record c { client_lists = clients; priority = pos (rank (length clients)) +ℤ base })
unfolding get_priority
get_priority-done m c base os clients e f = rw (get_priority, e, f) refl

-- When the owners of the file are known and their bitmaps reach the chunk, both reports return: a chunk
-- that no owner could serve goes back once, marked so, with a priority below 0; a chunk whose
-- download failed goes back once, marked so, with a priority below 10.
reported_chunks_rank_low :
    (m : OwnerInfoMap) (q : ChunkQueue) (n : ℕ) (fileid : String) (os clients : List FileOwnerInfo)
    → lookup fileid m ≡ some os
    → owners_of n os ≡ done clients
    → Returns (Pushed noowner n fileid (negsuc 0) q) (report_no_owner_chunk m q n fileid)
      × Returns (Pushed failed n fileid (pos 9) q) (report_failed_chunk m q n fileid)
unfolding report_no_owner_chunk report_failed_chunk ◌+ℤ◌
reported_chunks_rank_low m q n fileid os clients e f =
    let small : rank (length clients) ≤ 19 = rank_le (length clients) in
    (
      rw
          (
            report_no_owner_chunk,
            get_priority-done m (new_chunk noowner fileid n) (negsuc 19) os clients e f,
          )
          (_, refl, refl, refl, refl, ground arith),
      rw
          (
            report_failed_chunk,
            get_priority-done m (new_chunk failed fileid n) (negsuc 9) os clients e f,
          )
          (_, refl, refl, refl, refl, ground arith),
    )
