-- ===== src/Client/Run/Start.antt =====
-- What `run` begins its loop with: each chunk that is wanted stands in the queue, or its bit is set.
use cool_down.Prelude.{
  ℕ, zero, suc, ◌+◌, ◌<◌, ◌≡◌, refl, sym, ap, ◌∙◌, arith, String, some, List, [], ◌∷◌, ◌++◌, true,
  false, get_elem?, length, ◌==◌, string_key, nat_key, All, if_both, if◌then◌else◌, Bool-cases, inl,
  inr,
}
use cool_down.Prelude.Map.{
  lookup, get_or, get_or-lookup, member, contains, NoRepeat, NoRepeat-add, beq_refl,
}
use cool_down.Outcome.{done, WhenDone, WhenDone-bind, WhenDone-map, >>=-eq-done, done-injective}
use cool_down.Client.SockManager.{SockManager}
use cool_down.Client.JobInfo.{Bitmap, JobInfo, unique, unique_fileid_list}
use cool_down.Client.ChunkSelector.{ChunkQueue, init_queue}
use cool_down.Client.ChunkSelector.Queue.{keys, missing, wanted, IsReady, init_queue-keys}
use cool_down.Client.Bitmaps.{Blocks}
use cool_down.Client.Run.{Run, Search, looping, search, search_files, start_run, before_search}
use cool_down.Client.Run.Tally.{bit_value, queued_count, tasks_count, key_count, bit_count}
use cool_down.Client.Run.Rounds.{Searched, search-Searched}
use cool_down.Client.Run.Refinement.{total}

unique-NoRepeat : (ks : List String) → NoRepeat (unique ks)
unfolding unique
unique-NoRepeat [] = tt
unique-NoRepeat (k ∷ ks) = NoRepeat-add k (unique ks) (unique-NoRepeat ks)

module _ (f : String) (n : ℕ) where
  queued_count-keys : (q : ChunkQueue) → queued_count f n q ≡ key_count f n (keys q)
  unfolding queued_count key_count
  queued_count-keys [] = refl
  queued_count-keys (c ∷ q) = omega (arith, queued_count-keys q)

  key_count-append :
      (xs ys : List (String × ℕ)) → key_count f n (xs ++ ys) ≡ key_count f n xs + key_count f n ys
  unfolding key_count
  key_count-append [] ys = omega arith
  key_count-append (x ∷ xs) ys = omega (arith, key_count-append xs ys)

  -- The missing chunks of another file, or with later numbers.
  missing_elsewhere :
      (g : String) (i : ℕ) (bits : Bitmap) → (g == f) ≡ false → key_count f n (missing g i bits) ≡ 0
  unfolding key_count
  missing_elsewhere g i [] h = refl
  missing_elsewhere g i (true ∷ bits) h = missing_elsewhere g (i + 1) bits h
  missing_elsewhere g i (false ∷ bits) h = ground (arith, missing_elsewhere g (i + 1) bits h)

  missing_later : (i : ℕ) (bits : Bitmap) → n < i → key_count f n (missing f i bits) ≡ 0
  unfolding key_count
  missing_later i [] h = refl
  missing_later i (true ∷ bits) h = missing_later (i + 1) bits (omega arith)
  missing_later i (false ∷ bits) h = ground (arith, missing_later (i + 1) bits)

  -- A chunk is missing once, or its bit is set.
  missing_once :
      (i j : ℕ) (bits : Bitmap)
      → n ≡ i + j
      → j < length bits
      → key_count f n (missing f i bits) + bit_value (get_elem? bits j) ≡ 1
  unfolding key_count
  missing_once i j [] e l = absurd (omega arith)
  missing_once i zero (true ∷ bits) e l = ground (arith, missing_later (i + 1) bits)
  missing_once i zero (false ∷ bits) e l = ground (arith, missing_later (i + 1) bits, beq_refl f)
  missing_once i (suc j) (true ∷ bits) e l = missing_once (i + 1) j bits (omega arith) (omega arith)
  missing_once i (suc j) (false ∷ bits) e l = ground (arith, missing_once (i + 1) j bits)

  wanted_elsewhere :
      (j : JobInfo) (fs : List String) → member f fs ≡ false → key_count f n (wanted j fs) ≡ 0
  unfolding key_count member
  wanted_elsewhere j [] h = refl
  wanted_elsewhere j (g ∷ fs) h =
      let here = missing g 0 (get_or g [] j.download_info.bitmap_map) in
      let apart : (g == f) ≡ false =
        ground (arith, string_key.beq_iff f g, string_key.beq_iff g f) in
      let rest : member f fs ≡ false = ground arith in
      rw (key_count-append here (wanted j fs))
        (omega (arith, missing_elsewhere g 0 _ apart, wanted_elsewhere j fs rest))

  wanted_once :
      (j : JobInfo) (fs : List String) (bits : Bitmap)
      → NoRepeat fs
      → member f fs ≡ true
      → lookup f j.download_info.bitmap_map ≡ some bits
      → n < length bits
      → key_count f n (wanted j fs) + bit_count f n j.download_info ≡ 1
  unfolding member bit_count
  wanted_once j [] bits d m e l = cc
  wanted_once j (g ∷ fs) bits d m e l =
      rw (key_count-append (missing g 0 (get_or g [] j.download_info.bitmap_map)) (wanted j fs))
        (elim (Bool-cases (f == g)) [
          | inl t ↦
              let same : g ≡ f = sym ((string_key.beq_iff f g).0 t) in
              let once : key_count f n (missing f 0 bits) + bit_value (get_elem? bits n) ≡ 1 =
                missing_once 0 n bits (omega arith) l in
              let found : get_or g [] j.download_info.bitmap_map ≡ bits =
                ap (λ k. get_or k [] j.download_info.bitmap_map) same
                ∙ get_or-lookup f [] bits j.download_info.bitmap_map e in
              rw (found, same, e, bit_count)
                (omega (arith, once, wanted_elsewhere j fs (rw same at d.0)))
          | inr t ↦
              let apart : (g == f) ≡ false =
                ground (arith, string_key.beq_iff f g, string_key.beq_iff g f) in
              let inside : member f fs ≡ true = ground arith in
              omega (
                arith,
                missing_elsewhere g 0 (get_or g [] j.download_info.bitmap_map) apart,
                wanted_once j fs bits d.1 inside e l,
              )
        ])

  -- `s` is the state once the files have been searched for.
  started :
      (s : Run) (q : ChunkQueue) (bits : Bitmap)
      → init_queue s.info ≡ done q
      → All (IsReady s.info) (unique_fileid_list s.info)
      → member f (unique_fileid_list s.info) ≡ true
      → lookup f s.info.download_info.bitmap_map ≡ some bits
      → n < length bits
      → s.tasks ≡ []
      → s.place ≡ looping
      → s.dropped ≡ []
      → total f n (record s { queue = q }) ≡ 1
  unfolding tasks_count key_count unique_fileid_list
  started s q bits e ready m b l no_tasks top none_dropped =
      let k : keys q ≡ wanted s.info (unique_fileid_list s.info) =
        rw e at (init_queue-keys s.info ready) in
      let once =
        wanted_once s.info (unique_fileid_list s.info) bits (unique-NoRepeat s.info.fileidlist) m b
          l in
      rw (no_tasks, top, none_dropped)
        (omega (arith, queued_count-keys q, ap (key_count f n) k, once))

unsearched : (s : Run) → Searched s s
unsearched s = record {
  info = record { download = refl; torrent = refl; files = refl; list = refl };
  queue = refl;
  tasks = refl;
  place = refl;
  dropped = refl;
}

onward : (s t u : Run) → Searched s t → Searched t u → Searched s u
onward s t u a b = record {
  info = record {
    download = b.info.download ∙ a.info.download;
    torrent = b.info.torrent ∙ a.info.torrent;
    files = b.info.files ∙ a.info.files;
    list = b.info.list ∙ a.info.list;
  };
  queue = b.queue ∙ a.queue;
  tasks = b.tasks ∙ a.tasks;
  place = b.place ∙ a.place;
  dropped = b.dropped ∙ a.dropped;
}

module _ (boost : Blocks) (self_id : String) where
  search_files-Searched :
      (net : String → Search) (fs : List String) (s : Run)
      → WhenDone (Searched s) (search_files boost self_id net fs s)
  unfolding search_files
  search_files-Searched net [] s = unsearched s
  search_files-Searched net (f ∷ fs) s =
      WhenDone-bind _
        (if contains f s.info.owner_info_map then done s else search boost self_id f (net f) s) _
        (if_both (WhenDone (Searched s)) (contains f s.info.owner_info_map) (unsearched s)
          (search-Searched boost self_id f (net f) s))
        λ s1 k. WhenDone-map (λ (t : Run) h. onward s s1 t k h) _ (search_files-Searched net fs s1)

  -- The run starts, and each file of the job is then ready: it is in the torrent, its bitmap has a bit
  -- for each of its chunks, and its owners are known with bitmaps as long. Then each chunk of each file
  -- has one place: its bit is set, or it stands in the queue once.
  pub start_run-total :
      (net : String → Search) (info : JobInfo) (m : SockManager) (s : Run) (f : String) (n : ℕ)
      (bits : Bitmap)
      → start_run boost self_id net info m ≡ done s
      → All (IsReady s.info) (unique_fileid_list s.info)
      → member f (unique_fileid_list s.info) ≡ true
      → lookup f s.info.download_info.bitmap_map ≡ some bits
      → n < length bits
      → total f n s ≡ 1
  unfolding start_run
  start_run-total net info m s f n bits e ready has b l =
      let (s1, e1, rest) =
        >>=-eq-done (search_files boost self_id net info.fileidlist (before_search info m)) _ e in
      let (q, e2, last) = >>=-eq-done (init_queue s1.info) _ rest in
      let made : record s1 { queue = q } ≡ s = done-injective last in
      let there : s1.info ≡ s.info = ap (λ (r : Run). r.info) made in
      let k : Searched (before_search info m) s1 =
        rw e1 at (search_files-Searched net info.fileidlist (before_search info m)) in
      rw⁻¹ made (
        started f n s1 q bits e2 (rw there ready) (rw there has) (rw there b) l k.tasks k.place
          k.dropped)

  -- The start leaves the torrent as it was.
  pub start_run-torrent :
      (net : String → Search) (info : JobInfo) (m : SockManager) (s : Run)
      → start_run boost self_id net info m ≡ done s
      → s.info.torrent_info ≡ info.torrent_info
  unfolding start_run
  start_run-torrent net info m s e =
      let before = before_search info m in
      let (s1, e1, rest) =
        >>=-eq-done (search_files boost self_id net info.fileidlist before) _ e in
      let (q, e2, last) = >>=-eq-done (init_queue s1.info) _ rest in
      let made : record s1 { queue = q } ≡ s = done-injective last in
      let k : Searched before s1 = rw e1 at (search_files-Searched net info.fileidlist before) in
      ap (λ (r : Run). r.info.torrent_info) (sym made) ∙ k.info.torrent
