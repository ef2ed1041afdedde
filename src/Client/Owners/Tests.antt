-- ===== src/Client/Owners/Tests.antt =====
-- A job that knows one owner, with a connection to it and without, and a peer that has the file.
use cool_down.Prelude.{◌≡◌, refl, String, none, some, [], ◌∷◌, true, false, string_key, nat_key}
use cool_down.Prelude.Int.{pos}
use cool_down.Prelude.Map.{lookup, insert, get_or, contains, member}
use cool_down.ErrorCode.{RetCode, is_ok}
use cool_down.Outcome.{done, throw, assertion, Returns}
use cool_down.Messages.{ShakeHand}
use cool_down.Messages.{Message}
use cool_down.Client.Torrent.{torrent_info}
use cool_down.Client.LocalFiles.{has_file}
use cool_down.Client.SockManager.{
  SockManager, get_idle_client_sock, get_from, return_sock, is_connected, get_tracker_sock,
}
use cool_down.Client.SockManager.Lists.{idle, used, take_idle, give_back, same_sock}
use cool_down.Client.JobInfo.{
  Bitmap, FileOwnerInfo, file_owner_info, JobInfo, download_info, bitmap_of,
}
use cool_down.Client.Jobs.{Job, Jobs, no_jobs, get_job_by_fileid, job_with_file}
use cool_down.Client.TrackerCalls.{Exchange, handle_reply_message, collect}
use cool_down.Client.TrackerCalls as Calls
use cool_down.Client.Bitmaps.{convert_bitmap_to_transport_format}
use cool_down.Client.ConnectionHandler.{handle_shake_hand}
use cool_down.Client.Owners.{
  Greeting, no_greeting, known_owners, request_clients, hello, shake_hand, greet_all,
  reinit_file_owner_info,
}
use cool_down.Client.Owners.Samples.{blocks_of, small, small-IsBlockwise}
use cool_down.Client.Owners.Greetings.{
  bitmap_of_owner, shake_hand-bitmap, reinit_file_owner_info_unreachable,
}

abbrev peer : FileOwnerInfo
peer = file_owner_info "peer" "10.0.0.1" (pos 9025) (pos 60)

-- A job for the file, with the bits that it has.
abbrev job_with : Bitmap → JobInfo
job_with bits = record {
  fileidlist = "f" ∷ [];
  local_files = record { top_path = "/top"; files = ("f", "/top/a") ∷ []; same_files = [] };
  owner_info_map = ("f", peer ∷ []) ∷ [];
  download_info = record (download_info 0 0) {
    percentage_map = ("f", pos 0) ∷ [];
    bitmap_map = ("f", bits) ∷ [];
  };
  torrent_info = torrent_info (record {
    torrent_id = "t";
    kind = pos 0;
    total_size = pos 5;
    create_by = "me";
    create_time = "now";
    tracker_address = "10.0.0.2";
    files = [];
  });
}

abbrev mine : JobInfo
mine = job_with (false ∷ false ∷ false ∷ [])

abbrev theirs : Bitmap
theirs = true ∷ false ∷ true ∷ []

abbrev their_job : Job
their_job = record { info = job_with theirs; is_running = true }

abbrev they : Jobs
they = record no_jobs { jobs = (1, their_job) ∷ [] }

abbrev connected : SockManager
connected = record {
  server_socks = ("10.0.0.2", 1) ∷ [];
  client_socks = ("peer", (some 3, idle) ∷ []) ∷ [];
  conditions = "peer" ∷ [];
}

abbrev lent : SockManager
lent = record connected { client_socks = ("peer", (some 3, used) ∷ []) ∷ [] }

abbrev greeting_of : String → Bitmap → ShakeHand
greeting_of client_id bits = record {
  client_id = client_id;
  info = record {
    file_id = "f";
    has_file = true;
    percentage = pos 0;
    file_bit = blocks_of bits;
    file_bit_count = 3;
  };
}

abbrev shaken : Greeting
shaken = record no_greeting {
  exchange = record {
    sent = RetCode.ok;
    received = RetCode.ok;
    reply = some (Message.shake_hand (greeting_of "peer" theirs));
  };
}

hello-mine :
    hello small mine "me" "f"
    ≡ done (Message.shake_hand (greeting_of "me" (false ∷ false ∷ false ∷ [])))
unfolding hello contains lookup get_or convert_bitmap_to_transport_format
hello-mine = refl

listed : lookup {K = String} "f" mine.owner_info_map ≡ some (peer ∷ [])
unfolding lookup
listed = refl

bitmap_of_peer : bitmap_of_owner "peer" (peer ∷ []) ≡ some []
unfolding file_owner_info
bitmap_of_peer = refl

is_connected_peer : is_connected connected "peer" ≡ true
unfolding is_connected contains lookup
is_connected_peer = refl

get_idle_client_sock-lent : get_idle_client_sock connected "peer" none ≡ done (lent, some 3)
unfolding get_idle_client_sock get_from lookup insert take_idle
get_idle_client_sock-lent = refl

return_sock_back : return_sock lent "peer" (some 3) ≡ done (connected, true)
unfolding return_sock give_back same_sock lookup insert member
return_sock_back = refl

get_job_by_fileid-they : get_job_by_fileid they "f" ≡ some their_job
unfolding get_job_by_fileid job_with_file member
get_job_by_fileid-they = refl

has_file_theirs : has_file (job_with theirs).local_files "f" ≡ true
unfolding has_file contains lookup
has_file_theirs = refl

lookup-theirs : lookup {K = String} "f" (job_with theirs).download_info.bitmap_map ≡ some theirs
unfolding lookup download_info
lookup-theirs = refl

handle_shake_hand-theirs :
    handle_shake_hand blocks_of they "peer"
      (Message.shake_hand (greeting_of "me" (false ∷ false ∷ false ∷ [])))
    ≡ done (RetCode.ok, greeting_of "peer" theirs)
unfolding handle_shake_hand get_job_by_fileid job_with_file member has_file bitmap_of lookup get_or
    contains
handle_shake_hand-theirs = refl

shake_hand-bitmap_example :
    Returns
      (λ out.
        (out.0 ≡ RetCode.ok) × (bitmap_of_owner "peer" (known_owners out.1 "f") ≡ some theirs))
      (shake_hand small mine connected "me" "f" "peer" shaken)
shake_hand-bitmap_example =
    shake_hand-bitmap small small-IsBlockwise mine connected lent connected they their_job "me" "f"
      "peer" (greeting_of "me" (false ∷ false ∷ false ∷ [])) (greeting_of "peer" theirs) shaken
      theirs [] (peer ∷ []) 3 true hello-mine refl listed bitmap_of_peer is_connected_peer
      get_idle_client_sock-lent return_sock_back get_job_by_fileid-they has_file_theirs
      lookup-theirs handle_shake_hand-theirs refl

-- The tracker's reply, and no connection to the peer.
abbrev named : Exchange
named = record {
  sent = RetCode.ok;
  received = RetCode.ok;
  reply = some (
      Message.query_peer_reply (record {
        return_code = 0;
        file_id = "f";
        count = 1;
        info =
            (record {
              client = record { client_id = "peer"; ip = "10.0.0.1"; message_port = pos 9025 };
              percentage = pos 60;
            })
            ∷ [];
      }));
}

abbrev alone : SockManager
alone = record connected { client_socks = [] }

request_clients-named : request_clients mine alone "f" named ≡ done (RetCode.ok, mine)
unfolding request_clients Calls.request_clients handle_reply_message collect get_tracker_sock
    contains lookup get_or insert is_ok torrent_info
request_clients-named = refl

known_mine : known_owners mine "f" ≡ peer ∷ []
unfolding get_or lookup
known_mine = refl

is_connected-alone : is_connected alone "peer" ≡ false
unfolding is_connected contains lookup
is_connected-alone = refl

reinit_file_owner_info_unreachable_example :
    reinit_file_owner_info small "me" "f" named (no_greeting ∷ []) (mine, alone) ≡ throw assertion
unfolding file_owner_info greet_all
reinit_file_owner_info_unreachable_example =
    reinit_file_owner_info_unreachable small mine mine mine alone alone "me" "f" named [] [] peer []
      no_greeting [] request_clients-named known_mine refl refl is_connected-alone refl
