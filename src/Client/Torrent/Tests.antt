-- ===== src/Client/Torrent/Tests.antt =====
-- A torrent with two files of the same content, and the lookup at it.
use cool_down.Prelude.{◌≡◌, [], ◌∷◌, find?, ◌==◌, string_key, String}
use cool_down.Prelude.Int.{pos}
use cool_down.Client.Torrent.{FileEntry, Torrent, torrent_info, get_one_file_of_same_fileid}
use cool_down.Client.Torrent.FileMap.{or_assertion, get_one_file-find?}

abbrev entry : String → String → FileEntry
entry check_sum filename = record {
  check_sum = check_sum;
  relative_path = "/";
  filename = filename;
  size = pos 5;
  chunks = [];
}

abbrev three_files : Torrent
three_files = record {
  torrent_id = "t";
  kind = pos 0;
  total_size = pos 15;
  create_by = "me";
  create_time = "now";
  tracker_address = "10.0.0.2";
  files = entry "f" "a" ∷ entry "g" "b" ∷ entry "g" "c" ∷ [];
}

get_one_file-find?_example :
    get_one_file_of_same_fileid (torrent_info three_files) "g"
    ≡ or_assertion (find? (λ f. "g" == f.check_sum) three_files.files)
get_one_file-find?_example = get_one_file-find? three_files "g"
