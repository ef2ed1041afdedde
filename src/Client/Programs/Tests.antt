-- ===== src/Client/Programs/Tests.antt =====
-- A client that publishes a file of three bytes, and one that downloads a torrent.
use cool_down.Prelude.{
  ◌≡◌, refl, some, none, List, [], ◌∷◌, ◌++◌, Bool, true, false, All, map, string_key, nat_key,
}
use cool_down.Prelude.Int.{pos}
use cool_down.ErrorCode.{RetCode, is_ok}
use cool_down.Outcome.{done}
use cool_down.Messages.{message_reply, payload_code}
use cool_down.Prelude.Map.{member}
use cool_down.Client.Torrent.{Torrent}
use cool_down.Client.LocalFiles.Samples.{file_system}
use cool_down.Client.Jobs.{Jobs, published}
use cool_down.Client.TrackerCalls.{Attempt, went}
use cool_down.Client.Owners.Samples.{small}
use cool_down.Client.Verification.{get_verification_code, get_file_checksum_list}
use cool_down.Client.Verification.Engine.{spelling_engine, spelled}
use cool_down.Client.MakeTorrent.{make_torrent, make_chunks, process_files, process_file}
use cool_down.Client.MakeTorrent.Listing.{file, source_files}
use cool_down.Client.MakeTorrent.Samples.{three}
use cool_down.Client.Programs.{main}
use cool_down.Client.Programs.Setting.{
  Ended, Surroundings, exit_ok, head, downloader, tracker_address,
}
use cool_down.Client.Programs.Requests.{IsBracketed, login_of, logout_of, download_requests}
use cool_down.Client.Programs.Publishing.{arriving}
use cool_down.Client.Programs.Known.{IsKnown, requests_for, upload-IsKnown}
use cool_down.Tracker.Handler.{Handler}
use cool_down.Tracker.Directory.Tables.{Tables, held, directory}
use cool_down.Tracker.Directory.Samples.{tables, insert_new, tables-IsRelational}
use cool_down.Tracker.Directory.Follows.{Event, serve}

abbrev grant : Attempt
grant = went record {
  sent = RetCode.ok;
  received = RetCode.ok;
  reply = some (message_reply (record { return_code = 0 }));
}

abbrev made : Torrent
made = record (head "me" "now") {
  torrent_id = spelled (9 ∷ []);
  total_size = pos 3;
  files =
      (record {
        check_sum = spelled three.content;
        relative_path = "";
        filename = "a";
        size = pos 3;
        chunks = (record { check_sum = spelled three.content; size = pos 3 }) ∷ [];
      })
      ∷ [];
}

abbrev around : Surroundings spelling_engine file_system
around = record {
  disk = tt;
  local_port = pos 9025;
  connected = some (5, tracker_address);
  at_login = grant;
  at_logout = grant;
  at_publish = λ fileid. grant;
  histories = λ path. none;
  torrents = λ path. some (some made);
  rewritten = λ written. some written;
  parent = λ path. "/top/";
  resources = λ path. (true, file true three);
  now = "now";
  bytes_of = λ text. 9 ∷ [];
  opened = true;
  serialized = true;
  engine = [];
  has_thread = true;
  all_joined = true;
  can_listen = true;
  terminated = true;
  up = 0;
  down = 0;
}

make_torrent-three :
    make_torrent spelling_engine true
      (file true three)
      "/top/"
      1048576
      (head "me" "now")
      (λ text. 9 ∷ [])
      true
      true
      []
    ≡ some (done (RetCode.ok, some made))
unfolding make_torrent process_files process_file source_files get_file_checksum_list make_chunks
    get_verification_code
make_torrent-three = refl

download_requests_example :
    (e : Ended) × (main small spelling_engine file_system around false "me" ("/t.torrent" ∷ [])
      ≡ some e)
    × IsBracketed downloader (login_of downloader (pos 9025) ∷ []) e
unfolding is_ok
download_requests_example =
    download_requests small spelling_engine file_system around "me" "/t.torrent" 5 refl refl refl
      refl

abbrev at_tracker : Handler
at_tracker = record { clientid = "me"; host = "10.0.0.1" }

abbrev nothing_known : Tables
nothing_known = record { log = []; owners = [] }

abbrev arrived : List Event
arrived = map (arriving at_tracker "now") (requests_for "me" made)

all_granted : All (λ (b : Bool). b ≡ true) (serve tables arrived nothing_known).1
unfolding serve insert_new held payload_code is_ok published member
all_granted = (refl, (refl, tt))

upload-IsKnown_example :
    (c : Jobs) × (main small spelling_engine file_system around false "me"
        ("/top/a" ∷ "/t.torrent" ∷ [])
      ≡ some (requests_for "me" made ++ logout_of "me" ∷ [], done (exit_ok, c)))
    × IsKnown "me" made (directory (serve tables arrived nothing_known).0)
unfolding published member is_ok
upload-IsKnown_example =
    upload-IsKnown small spelling_engine file_system around tables directory tables-IsRelational
      "me" "/top/a" "/t.torrent" 5 RetCode.ok made at_tracker "now" nothing_known refl refl
      make_torrent-three refl refl (refl, tt) refl refl refl all_granted
