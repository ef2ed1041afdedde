-- ===== src/Client/ChunkSelector/Tests.antt =====
-- A job with one file of three chunks, and the theorems of the selector at it.
use mathlib.Core.List.{Perm}
use cool_down.Prelude.{ℕ, ◌≡◌, refl, some, List, [], ◌∷◌, true, false, arith, All, string_key}
use cool_down.Prelude.Int.{ℤ, pos, negsuc}
use cool_down.Prelude.Map.{lookup, insert, add, get_or}
use cool_down.Outcome.{Returns}
use cool_down.Client.Torrent.{FileEntry, torrent_info, build_map, add_to_map, torrent_file_info}
use cool_down.Client.LocalFiles.{new_local_files}
use cool_down.Client.JobInfo.{
  Bitmap, FileOwnerInfo, OwnerInfoMap, download_info, JobInfo, unique, unique_fileid_list,
}
use cool_down.Client.ChunkSelector.{
  ChunkInfo, ChunkQueue, pop_max, get_chunk, init_queue, new_chunk, free,
}
use cool_down.Client.ChunkSelector.Priority.{IsBounded, get_chunk_max}
use cool_down.Client.ChunkSelector.Queue.{keys, wanted, IsReady, init_queue-keys}

abbrev owner : Bitmap → FileOwnerInfo
owner bits = record {
  clientid = "peer";
  ip = "10.0.0.1";
  message_port = pos 9025;
  percentage = pos 60;
  bitmap = bits;
}

abbrev owners : List FileOwnerInfo
owners = owner (true ∷ true ∷ false ∷ []) ∷ owner (true ∷ false ∷ false ∷ []) ∷ []

abbrev owner_map : OwnerInfoMap
owner_map = ("f", owners) ∷ []

abbrev chunk : ℤ → ℕ → ChunkInfo
chunk p n = record (new_chunk free "f" n) { priority = p }

abbrev low_queue : ChunkQueue
low_queue = chunk (pos 10) 0 ∷ chunk (pos 19) 1 ∷ chunk (negsuc 4) 2 ∷ []

get_chunk_low :
    get_chunk low_queue ≡ (some (chunk (pos 19) 1), chunk (pos 10) 0 ∷ chunk (negsuc 4) 2 ∷ [])
unfolding get_chunk pop_max
get_chunk_low = refl

get_chunk_max_example :
    IsBounded (pos 19) low_queue
    × Perm low_queue (chunk (pos 19) 1 ∷ chunk (pos 10) 0 ∷ chunk (negsuc 4) 2 ∷ [])
get_chunk_max_example =
    get_chunk_max low_queue (chunk (pos 10) 0 ∷ chunk (negsuc 4) 2 ∷ []) (chunk (pos 19) 1)
      get_chunk_low

abbrev file : FileEntry
file = record {
  check_sum = "f";
  relative_path = "/";
  filename = "a";
  size = pos 5;
  chunks =
      (record { check_sum = "c0"; size = pos 2 })
      ∷ (record { check_sum = "c1"; size = pos 2 })
      ∷ (record { check_sum = "c2"; size = pos 1 })
      ∷ [];
}

abbrev bits : Bitmap
bits = true ∷ false ∷ false ∷ []

abbrev job : JobInfo
job = record {
  fileidlist = "f" ∷ [];
  local_files = new_local_files "/top";
  owner_info_map = owner_map;
  download_info = record (download_info 0 0) { bitmap_map = ("f", bits) ∷ [] };
  torrent_info = torrent_info (record {
    torrent_id = "t";
    kind = pos 0;
    total_size = pos 5;
    create_by = "me";
    create_time = "now";
    tracker_address = "10.0.0.2";
    files = file ∷ [];
  });
}

job-IsReady : All (IsReady job) (unique_fileid_list job)
unfolding unique_fileid_list unique torrent_info build_map add_to_map insert lookup
    torrent_file_info add get_or
job-IsReady = (
  record {
    file = torrent_file_info file;
    copies = [];
    bits = bits;
    owners = owners;
    listed = refl;
    mapped = refl;
    sized = refl;
    owned = refl;
    shared = (omega arith, (omega arith, tt));
  },
  tt,
)

init_queue-keys_example :
    Returns (λ q. keys q ≡ wanted job (unique_fileid_list job)) (init_queue job)
init_queue-keys_example = init_queue-keys job job-IsReady
