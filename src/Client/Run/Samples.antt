-- ===== src/Client/Run/Samples.antt =====
-- A job with one file of one chunk and one owner, in the states of two runs.
use cool_down.Prelude.{none, some, [], ◌∷◌, true, false, string_key, nat_key}
use cool_down.Prelude.Int.{pos}
use cool_down.ErrorCode.{RetCode}
use cool_down.Client.Torrent.{FileEntry, Torrent, torrent_info}
use cool_down.Client.SockManager.{SockManager}
use cool_down.Client.SockManager.Lists.{idle, used}
use cool_down.Client.JobInfo.{Bitmap, FileOwnerInfo, JobInfo, download_info}
use cool_down.Client.ChunkSelector.{ChunkInfo, free, failed}
use cool_down.Client.Bitmaps.{Blocks}
use cool_down.Client.Run.{Run, Search, DownloadTask, looping, left, needs_thread, new_task}

abbrev pub boost : Blocks
boost = record { to_block_range = λ bits. []; of_blocks = λ ns. [] }

abbrev pub file : FileEntry
file = record {
  check_sum = "f";
  relative_path = "/";
  filename = "a";
  size = pos 5;
  chunks = (record { check_sum = "c0"; size = pos 5 }) ∷ [];
}

abbrev pub torrent : Torrent
torrent = record {
  torrent_id = "t";
  kind = pos 0;
  total_size = pos 5;
  create_by = "me";
  create_time = "now";
  tracker_address = "10.0.0.2";
  files = file ∷ [];
}

abbrev pub peer : FileOwnerInfo
peer = record {
  clientid = "peer";
  ip = "10.0.0.1";
  message_port = pos 9025;
  percentage = pos 100;
  bitmap = true ∷ [];
}

abbrev pub job_with : Bitmap → JobInfo
job_with bits = record {
  fileidlist = "f" ∷ [];
  local_files = record {
    top_path = "/top";
    files = ("f", "/top/a") ∷ [];
    same_files = ("f", "/top/a" ∷ []) ∷ [];
  };
  owner_info_map = ("f", peer ∷ []) ∷ [];
  download_info = record (download_info 0 0) {
    is_stopped = false;
    is_download_paused = false;
    percentage_map = ("f", pos 0) ∷ [];
    bitmap_map = ("f", bits) ∷ [];
  };
  torrent_info = torrent_info torrent;
}

abbrev pub nothing_yet : JobInfo
nothing_yet = job_with (false ∷ [])

abbrev pub socks : SockManager
socks = record {
  server_socks = [];
  client_socks = ("peer", (some 3, idle) ∷ []) ∷ [];
  conditions = "peer" ∷ [];
}

abbrev pub lent : SockManager
lent = record socks { client_socks = ("peer", (some 3, used) ∷ []) ∷ [] }

abbrev pub chunk : ChunkInfo
chunk = record {
  status = free;
  fileid = "f";
  priority = pos 19;
  chunk_num = 0;
  client_lists = peer ∷ [];
}

abbrev pub no_search : Search
no_search = record {
  asked = record { sent = RetCode.net_connect; received = RetCode.ok; reply = none };
  greetings = [];
}

abbrev pub at_start : Run
at_start = record {
  info = nothing_yet;
  manager = socks;
  queue = chunk ∷ [];
  tasks = [];
  place = looping;
  dropped = [];
}

abbrev pub with_sock : Run
with_sock = record at_start {
  manager = lent;
  queue = [];
  place = needs_thread "f" chunk "peer" (some 3);
}

abbrev pub task : DownloadTask
task = new_task "f" chunk "peer" (some 3)

abbrev pub under_way : Run
under_way = record with_sock { tasks = task ∷ []; place = looping }

abbrev pub received : Run
received = record at_start { info = job_with (true ∷ []); queue = [] }

abbrev pub at_end : Run
at_end = record received { place = left }

-- The task is under way when the loop finds the queue empty and is left, and fails after that.
abbrev pub at_wait : Run
at_wait = record under_way { place = left }

abbrev pub again : ChunkInfo
again = record chunk { status = failed; priority = pos 9 }

abbrev pub failed_late : Run
failed_late = record at_wait { queue = again ∷ []; tasks = (record task { reported = true }) ∷ [] }

abbrev pub over : Run
over = record failed_late { manager = socks; tasks = [] }
