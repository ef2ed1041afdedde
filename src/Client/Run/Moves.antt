-- ===== src/Client/Run/Moves.antt =====
-- What each step of a run does to one chunk.
use cool_down.Prelude.{
  find?, find?-holds, sym, ◌==◌, ℕ, ◌+◌, ◌≡◌, refl, ◌∙◌, arith, String, Option, none, some, List,
  [], ◌∷◌, true, Bool-cases, Option-cases, inl, inr, string_key,
}
use cool_down.Prelude.Map.{lookup, contains}
use cool_down.Outcome.{
  Outcome, done, throw, assertion, WhenDone, WhenDone-then, WhenDone-bind, WhenDone-map,
  done-injective, ◌>>=◌,
}
use cool_down.Client.SockManager.{SockManager, get_idle_client_sock, get_sock_idel_condition}
use cool_down.Client.SockManager.Lists.{SockPtr}
use cool_down.Client.Torrent.FileMap.{get_one_file-find?, or_assertion}
use cool_down.Client.Torrent.{
  FileEntry, Torrent, torrent_info, torrent_file_info, TorrentFileInfo, TorrentInfo,
  get_one_file_of_same_fileid,
}
use cool_down.Client.LocalFiles.{LocalFileInfo, get_file, has_local_file}
use cool_down.Client.JobInfo.{FileOwnerInfo}
use cool_down.Client.ChunkSelector.{ChunkInfo, report_no_owner_chunk}
use cool_down.Client.Run.{looping, needs_sock, Run, prepare, ask_sock, download_from}
use cool_down.Client.Run.Tally.{is, queued_count, place_count, report_no_owner_chunk-count}

-- The file that the torrent gives for a file id has that id.
abbrev pub IsKeyed : TorrentInfo → Type 0
IsKeyed t =
    (fileid : String) (f : TorrentFileInfo)
    → get_one_file_of_same_fileid t fileid ≡ done f
    → f.fileid ≡ fileid

-- Every torrent does.
pub torrent_info-IsKeyed : (t : Torrent) → IsKeyed (torrent_info t)
unfolding torrent_file_info
torrent_info-IsKeyed t fileid f e =
    go (find? (λ g. fileid == g.check_sum) t.files) refl (sym (get_one_file-find? t fileid) ∙ e)
  where
    go :
        (o : Option FileEntry)
        → find? (λ g. fileid == g.check_sum) t.files ≡ o
        → or_assertion (find? (λ g. fileid == g.check_sum) t.files) ≡ done f
        → f.fileid ≡ fileid
    go none q h = let no : throw assertion ≡ done f = rw q at h in cc
    go (some g) q h =
        let same : torrent_file_info g ≡ f = done-injective (rw q at h) in
        let key : fileid ≡ g.check_sum =
          (string_key.beq_iff fileid g.check_sum).0
            (find?-holds (λ k. fileid == k.check_sum) t.files g q) in
        rw⁻¹ same (sym key)

has_local_file-get_file :
    (l : LocalFileInfo) (fileid relative_path filename : String)
    → has_local_file l fileid relative_path filename ≡ true
    → (path : String) × (get_file l fileid ≡ some path)
unfolding has_local_file get_file contains
has_local_file-get_file l fileid relative_path filename h =
    elim (Option-cases (lookup fileid l.files)) [
      | inl e ↦ absurd (ground (arith, rw (has_local_file, contains, e) at h))
      | inr (path, e) ↦ (path, e)
    ]

module _ (f : String) (n : ℕ) where
  -- The thread of the job holds the chunk, and nothing else has changed.
  pub record Holds (c : ChunkInfo) (s s' : Run) : Type 0 where
    pub info : s'.info ≡ s.info
    pub queue : s'.queue ≡ s.queue
    pub tasks : s'.tasks ≡ s.tasks
    pub dropped : s'.dropped ≡ s.dropped
    pub place : place_count f n s'.place ≡ is f n c.fileid c.chunk_num

  prepare-Holds :
      (c : ChunkInfo) (clientid : String) (sock : SockPtr) (s : Run)
      → IsKeyed s.info.torrent_info
      → WhenDone (Holds c s) (prepare c clientid sock s)
  unfolding prepare
  prepare-Holds c clientid sock s keyed =
      go (get_one_file_of_same_fileid s.info.torrent_info c.fileid) refl
    where
      go :
          (o : Outcome TorrentFileInfo)
          → get_one_file_of_same_fileid s.info.torrent_info c.fileid ≡ o
          → WhenDone (Holds c s) (prepare c clientid sock s)
      go (throw e) q = rw (q, prepare) tt
      go (done file) q =
          elim (Bool-cases (
            has_local_file s.info.local_files c.fileid file.file.relative_path
              file.file.filename)) [
                | inr absent ↦ rw (q, absent, prepare) tt
                | inl there ↦
                    let (path, e) = has_local_file-get_file s.info.local_files c.fileid _ _ there in
                    rw (q, there, e, prepare)
                      (record {
                        info = refl;
                        queue = refl;
                        tasks = refl;
                        dropped = refl;
                        place = rw (keyed c.fileid file q) refl;
                      })
              ]

  pub ask_sock-Holds :
      (c : ChunkInfo) (clientid : String) (fresh : SockPtr) (s : Run)
      → IsKeyed s.info.torrent_info
      → WhenDone (Holds c s) (ask_sock c clientid fresh s)
  unfolding ask_sock
  ask_sock-Holds c clientid fresh s keyed =
      WhenDone-then _ (get_idle_client_sock s.manager clientid fresh) _ λ out. got out.0 out.1
    where
      got :
          (m : SockManager) (sock : SockPtr)
          → WhenDone (Holds c s) (elim sock [
            | none ↦ do
              _ ← get_sock_idel_condition m clientid
              done (record s { manager = m; place = needs_sock c clientid })
            | some k ↦ prepare c clientid (some k) (record s { manager = m })
          ])
      got m none =
          WhenDone-then _ (get_sock_idel_condition m clientid) _
            λ _. record { info = refl; queue = refl; tasks = refl; dropped = refl; place = refl }
      got m (some k) =
          WhenDone-map {Q = Holds c s}
            (λ t h. record {
              info = h.info;
              queue = h.queue;
              tasks = h.tasks;
              dropped = h.dropped;
              place = h.place;
            })
            _ (prepare-Holds c clientid (some k) (record s { manager = m }) keyed)

  -- The chunk goes back to the queue or is held, and nothing else has changed.
  pub record Takes (c : ChunkInfo) (s s' : Run) : Type 0 where
    pub info : s'.info ≡ s.info
    pub tasks : s'.tasks ≡ s.tasks
    pub dropped : s'.dropped ≡ s.dropped
    pub count :
        queued_count f n s'.queue + place_count f n s'.place
        ≡ queued_count f n s.queue + is f n c.fileid c.chunk_num

  pub download_from-Takes :
      (c : ChunkInfo) (os : List FileOwnerInfo) (fresh : SockPtr) (s : Run)
      → IsKeyed s.info.torrent_info
      → s.place ≡ looping
      → WhenDone (Takes c s) (download_from c os fresh s)
  unfolding download_from
  download_from-Takes c [] fresh s keyed top =
      WhenDone-bind _ (report_no_owner_chunk s.info.owner_info_map s.queue c.chunk_num c.fileid) _
        (report_no_owner_chunk-count f n s.info.owner_info_map s.queue c.chunk_num c.fileid)
        λ q k. record {
          info = refl;
          tasks = refl;
          dropped = refl;
          count = rw (top, k) (omega arith);
        }
  download_from-Takes c (o ∷ os) fresh s keyed top =
      WhenDone-map
        (λ t (h : Holds c s t). record {
          info = h.info;
          tasks = h.tasks;
          dropped = h.dropped;
          count = rw (h.queue, h.place) refl;
        })
        _ (ask_sock-Holds c _ fresh s keyed)
