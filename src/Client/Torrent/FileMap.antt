-- ===== src/Client/Torrent/FileMap.antt =====
-- The map from file ids to the files of a torrent, against a scan of the torrent's file list.
use mathlib.Core.List.{append_assoc, append-nil}
use cool_down.Prelude.{
  String, ◌≡◌, refl, sym, ap, ◌∙◌, none, some, List, [], ◌∷◌, ◌++◌, map, arith, ◌==◌, string_key,
  keep, find?, Bool-cases, inl, inr, Option,
}
use cool_down.Prelude.Map.{lookup, get_or, get_or-insert}
use text.Mathlib.TextEquality.{eq_iff}
use cool_down.Outcome.{Outcome, done, throw, assertion}
use cool_down.Client.Torrent.{
  FileEntry, TorrentFileInfo, TorrentInfo, torrent_file_info, FileMap, add_to_map, build_map,
  Torrent, torrent_info, first_of, get_one_file_of_same_fileid,
}

-- The files of the list with the given id, in order.
abbrev pub same_files : String → List FileEntry → List FileEntry
same_files k = keep λ f. k == f.check_sum

get_or-add_to_map :
    (k : String) (f : FileEntry) (m : FileMap)
    → get_or k [] (add_to_map f m) ≡ get_or k [] m ++ map torrent_file_info (same_files k (f ∷ []))
unfolding add_to_map
get_or-add_to_map k f m =
    let ms = get_or f.check_sum [] m ++ torrent_file_info f ∷ [] in
    elim (Bool-cases (k == f.check_sum)) [
      | inl e ↦
          let same : k ≡ f.check_sum = (eq_iff k f.check_sum).0 e in
          rw (get_or-insert f.check_sum k [] ms m, e, same)
      | inr e ↦ rw (get_or-insert f.check_sum k [] ms m, e) (sym (append-nil _))
    ]

map-same_files-cons :
    (k : String) (f : FileEntry) (fs : List FileEntry)
    → map torrent_file_info (same_files k (f ∷ [])) ++ map torrent_file_info (same_files k fs)
      ≡ map torrent_file_info (same_files k (f ∷ fs))
map-same_files-cons k f fs = ground arith

pub get_or-build_map :
    (k : String) (fs : List FileEntry) (m : FileMap)
    → get_or k [] (build_map fs m) ≡ get_or k [] m ++ map torrent_file_info (same_files k fs)
unfolding build_map
get_or-build_map k [] m = sym (append-nil _)
get_or-build_map k (f ∷ fs) m =
    rw (get_or-build_map k fs (add_to_map f m), get_or-add_to_map k f m, append_assoc)
      (ap (◌++◌ (get_or k [] m)) (map-same_files-cons k f fs))

-- The entry of an id holds the files with that id, in the order of the torrent.
pub get_or-torrent_info :
    (k : String) (t : Torrent)
    → get_or k [] (torrent_info t).file_map ≡ map torrent_file_info (same_files k t.files)
unfolding torrent_info get_or lookup
get_or-torrent_info k t = get_or-build_map k t.files []

abbrev pub or_assertion : Option FileEntry → Outcome TorrentFileInfo
or_assertion none = throw assertion
or_assertion (some f) = done (torrent_file_info f)

first_of-map :
    (k : String) (fs : List FileEntry)
    → first_of (map torrent_file_info (same_files k fs))
      ≡ or_assertion (find? (λ f. k == f.check_sum) fs)
first_of-map k [] = refl
first_of-map k (f ∷ fs) = ground (arith, first_of-map k fs)

-- The lookup fails on its first or on its second assertion; a caller cannot tell which.
get_one-first_of :
    (t : TorrentInfo) (k : String)
    → get_one_file_of_same_fileid t k ≡ first_of (get_or k [] t.file_map)
unfolding get_one_file_of_same_fileid get_or
get_one-first_of t k = ground arith

-- For every torrent and file id, `get_one_file_of_same_fileid` gives the first file of the torrent's
-- list whose checksum is the id, and fails its assertion exactly when no file has that checksum.
pub get_one_file-find? :
    (t : Torrent) (k : String)
    → get_one_file_of_same_fileid (torrent_info t) k
      ≡ or_assertion (find? (λ f. k == f.check_sum) t.files)
get_one_file-find? t k =
    get_one-first_of (torrent_info t) k
    ∙ ap first_of (get_or-torrent_info k t)
    ∙ first_of-map k t.files
