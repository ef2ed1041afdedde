-- ===== src/Client/ChunkSelector/Queue.antt =====
-- What `init_queue` puts into the queue.
use mathlib.Core.List.{append_assoc, append-nil}
use cool_down.Prelude.{
  ℕ, zero, suc, ◌+◌, ◌≤◌, ◌<◌, ◌≡◌, refl, sym, ap, ◌∙◌, String, List, [], ◌∷◌, ◌++◌, arith, some,
  All, length, Bool, true, false, drop, get_elem?, string_key, if◌then◌else◌, drop_all, ◌==◌,
  nat_key,
}
use cool_down.Prelude.Int.{ℤ, pos}
use cool_down.Prelude.Map.{lookup, get_or}
use cool_down.Outcome.{Outcome, done, throw, Returns, Returns-bind, ◌>>=◌}
use cool_down.Client.Torrent.{TorrentFileInfo}
use cool_down.Client.JobInfo.{
  Bitmap, FileOwnerInfo, OwnerInfoMap, JobInfo, unique_fileid_list, bitmap_of,
}
use cool_down.Client.ChunkSelector.{
  ChunkInfo, ChunkQueue, owners_of, get_priority, queue_chunks, queue_files, init_queue, new_chunk,
  free,
}

-- The chunks of a queue, by file and number.
abbrev pub keys : ChunkQueue → List (String × ℕ)
keys [] = []
keys (c ∷ q) = (c.fileid, c.chunk_num) ∷ keys q

-- The chunks of a file that its bitmap does not have, where the bits are those from chunk `i` on.
abbrev pub missing : String → ℕ → Bitmap → List (String × ℕ)
missing fileid i [] = []
missing fileid i (true ∷ bits) = missing fileid (i + 1) bits
missing fileid i (false ∷ bits) = (fileid, i) ∷ missing fileid (i + 1) bits

abbrev pub wanted : JobInfo → List String → List (String × ℕ)
wanted j [] = []
wanted j (f ∷ fs) = missing f 0 (get_or f [] j.download_info.bitmap_map) ++ wanted j fs

-- The bitmap of the file has a bit for each chunk, the owners of the file are known, and the bitmap of
-- each has those bits too.
pub record IsReady (j : JobInfo) (fileid : String) : Type 0 where
  pub file : TorrentFileInfo
  pub copies : List TorrentFileInfo
  pub bits : Bitmap
  pub owners : List FileOwnerInfo
  pub listed : lookup fileid j.torrent_info.file_map ≡ some (file ∷ copies)
  pub mapped : lookup fileid j.download_info.bitmap_map ≡ some bits
  pub sized : length bits ≡ file.chunk_count
  pub owned : lookup fileid j.owner_info_map ≡ some owners
  pub shared : All (λ o. file.chunk_count ≤ length o.bitmap) owners

get_elem?-drop :
    (bits : Bitmap) (i : ℕ)
    → i < length bits
    → (b : Bool) × (get_elem? bits i ≡ some b) × (drop i bits ≡ b ∷ drop (i + 1) bits)
get_elem?-drop [] i h = elim h [ ]
get_elem?-drop (b ∷ bits) zero h = (b, refl, refl)
get_elem?-drop (b ∷ bits) (suc i) h =
    let (c, e, d) = get_elem?-drop bits i (omega arith) in
    let next : suc i + 1 ≡ suc (i + 1) = omega arith in (c, e, rw next d)

owners_of-Returns :
    (i n : ℕ) (os : List FileOwnerInfo)
    → All (λ o. n ≤ length o.bitmap) os
    → i < n
    → Returns (λ _. Unit {0}) (owners_of i os)
unfolding owners_of
owners_of-Returns i n [] a h = tt
owners_of-Returns i n (o ∷ os) a h =
    let (b, e, _) = get_elem?-drop o.bitmap i (omega arith) in
    ground (arith, owners_of-Returns i n os a.1 h)

get_priority-Returns :
    (m : OwnerInfoMap) (c : ChunkInfo) (n : ℕ) (os : List FileOwnerInfo) (base : ℤ)
    → lookup c.fileid m ≡ some os
    → All (λ o. n ≤ length o.bitmap) os
    → c.chunk_num < n
    → Returns (λ d. (d.fileid ≡ c.fileid) × (d.chunk_num ≡ c.chunk_num)) (get_priority m c base)
unfolding get_priority
get_priority-Returns m c n os base e a h =
    rw (e, get_priority) (ground (arith, owners_of-Returns c.chunk_num n os a h))

keys-append : (p q : ChunkQueue) → keys (p ++ q) ≡ keys p ++ keys q
keys-append [] q = refl
keys-append (c ∷ p) q = ap (◌∷◌ (c.fileid, c.chunk_num)) (keys-append p q)

module _ (m : OwnerInfoMap) (fileid : String) (bits : Bitmap) (os : List FileOwnerInfo)
    (owned : lookup fileid m ≡ some os) (shared : All (λ o. length bits ≤ length o.bitmap) os) where
  push-keys :
      (i : ℕ) (q : ChunkQueue) (o : Outcome ChunkInfo)
      → Returns (λ d. (d.fileid ≡ fileid) × (d.chunk_num ≡ i)) o
      → Returns (λ q'. keys q' ≡ keys q ++ (fileid, i) ∷ []) (o >>= λ c. done (q ++ c ∷ []))
  push-keys i q (done c) h =
      keys-append q (c ∷ []) ∙ ap (λ (k : String × ℕ). keys q ++ k ∷ []) (ground arith)
  push-keys i q (throw e) h = h

  queue_chunk-keys :
      (i : ℕ) (q : ChunkQueue) (b : Bool)
      → i < length bits
      → Returns
          (λ q'. keys q' ≡ keys q ++ missing fileid i (b ∷ []))
          (if b
            then done q
            else get_priority m (new_chunk free fileid i) (pos 0) >>= λ c. done (q ++ c ∷ []))
  queue_chunk-keys i q true h = sym (append-nil (keys q))
  queue_chunk-keys i q false h =
      push-keys i q _
        (get_priority-Returns m (new_chunk free fileid i) (length bits) os (pos 0) owned shared h)

  missing-cons :
      (i : ℕ) (b : Bool) (rest : Bitmap)
      → missing fileid i (b ∷ []) ++ missing fileid (i + 1) rest ≡ missing fileid i (b ∷ rest)
  missing-cons i true rest = refl
  missing-cons i false rest = refl

  queue_chunks-keys :
      (left i : ℕ) (q : ChunkQueue)
      → i + left ≡ length bits
      → Returns
          (λ q'. keys q' ≡ keys q ++ missing fileid i (drop i bits))
          (queue_chunks m fileid bits left i q)
  unfolding queue_chunks
  queue_chunks-keys zero i q h = rw (drop_all i bits (omega arith)) (sym (append-nil (keys q)))
  queue_chunks-keys (suc left) i q h =
      let (b, e, d) = get_elem?-drop bits i (omega arith) in
      rw (e, d, queue_chunks)
        (Returns-bind _ _ (queue_chunks m fileid bits left (i + 1))
          (queue_chunk-keys i q b (omega arith))
          λ q' k.
            rejoin b q q' (drop (i + 1) bits) k (queue_chunks m fileid bits left (i + 1) q')
              (queue_chunks-keys left (i + 1) q' (omega arith)))
    where
      rejoin :
          (b : Bool) (q q' : ChunkQueue) (rest : Bitmap)
          → keys q' ≡ keys q ++ missing fileid i (b ∷ [])
          → (o : Outcome ChunkQueue)
          → Returns (λ r. keys r ≡ keys q' ++ missing fileid (i + 1) rest) o
          → Returns (λ r. keys r ≡ keys q ++ missing fileid i (b ∷ rest)) o
      rejoin b q q' rest k (throw e) g = g
      rejoin b q q' rest k (done r) g =
          g
          ∙ ap (λ (l : List (String × ℕ)). l ++ missing fileid (i + 1) rest) k
          ∙ append_assoc (keys q) _ _
          ∙ ap (◌++◌ (keys q)) (missing-cons i b rest)

-- The bitmap is looked up only if there is a chunk to look at, which makes no difference.
fetched :
    (j : JobInfo) (f : String) (n : ℕ) (bits : Bitmap)
    → lookup f j.download_info.bitmap_map ≡ some bits
    → length bits ≡ n
    → (if n == 0 then done [] else bitmap_of j.download_info f) ≡ done bits
unfolding bitmap_of
fetched j f n [] e h = rw e (ground arith)
fetched j f n (b ∷ bits) e h = rw e (ground arith)

queue_file-keys :
    (j : JobInfo) (f : String) (q : ChunkQueue) (r : IsReady j f)
    → Returns
        (λ q'. keys q' ≡ keys q ++ missing f 0 (get_or f [] j.download_info.bitmap_map))
        (queue_chunks j.owner_info_map f r.bits r.file.chunk_count 0 q)
unfolding get_or
queue_file-keys j f q r =
    rw (r.mapped, get_or)
      (queue_chunks-keys j.owner_info_map f r.bits r.owners r.owned (rw r.sized r.shared)
        r.file.chunk_count 0 q (omega (arith, r.sized)))

queue_files-keys :
    (j : JobInfo) (fs : List String) (q : ChunkQueue)
    → All (IsReady j) fs
    → Returns (λ q'. keys q' ≡ keys q ++ wanted j fs) (queue_files j fs q)
unfolding queue_files
queue_files-keys j [] q r = sym (append-nil (keys q))
queue_files-keys j (f ∷ fs) q (r, rs) =
    rw (r.listed, fetched j f r.file.chunk_count r.bits r.mapped r.sized, queue_files)
      (Returns-bind _ _ (queue_files j fs) (queue_file-keys j f q r)
        λ q' k. rejoin q' k (queue_files j fs q') (queue_files-keys j fs q' rs))
  where
    here : List (String × ℕ)
    here = missing f 0 (get_or f [] j.download_info.bitmap_map)

    rejoin :
        (q' : ChunkQueue)
        → keys q' ≡ keys q ++ here
        → (o : Outcome ChunkQueue) → Returns (λ r. keys r ≡ keys q' ++ wanted j fs) o
        → Returns (λ r. keys r ≡ keys q ++ (here ++ wanted j fs)) o
    rejoin q' k (throw e) g = g
    rejoin q' k (done r) g =
        g
        ∙ ap (λ (l : List (String × ℕ)). l ++ wanted j fs) k
        ∙ append_assoc (keys q) here (wanted j fs)

-- If every file of the job is ready, `init_queue` returns, and the queue holds, for each file id once
-- and in order, exactly the chunks whose bit in the file's bitmap is not set.
pub init_queue-keys :
    (j : JobInfo)
    → All (IsReady j) (unique_fileid_list j)
    → Returns (λ q. keys q ≡ wanted j (unique_fileid_list j)) (init_queue j)
unfolding init_queue
init_queue-keys j r = queue_files-keys j (unique_fileid_list j) [] r
