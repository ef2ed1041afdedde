-- ===== src/Client/Run.antt =====
-- client/include/job.h and client/src/job.cc: `Job::run` with its download tasks. The thread of the job,
-- the threads of the tasks and those that set the flags of the job take turns: each function here is
-- what one of them does between two points where it waits or another may come first. `place` is where
-- the thread of the job stands. A task is known by what `onFailed` and `onFinished` read of it.
pub mod Steps
pub mod Tally
pub mod Moves
pub mod Rounds
pub mod Refinement
pub mod Start
pub mod Ends
mod Choice
pub mod Finish
pub mod Copies
pub mod Samples
mod Tests
pub mod Reports
use cool_down.Prelude.{
  ℕ, String, Option, none, some, List, [], ◌∷◌, ◌++◌, Bool, true, false, length, ltb, ◌==◌, nat_key,
  string_key, if◌then◌else◌,
}
use cool_down.Prelude.Map.{Map, contains}
use cool_down.Outcome.{Outcome, done, throw, exception, assert, ◌>>=◌, ◌>>◌}
use cool_down.Client.SockManager.{
  SockManager, get_idle_client_sock, return_sock, get_sock_idel_condition, get_payload_percentage,
}
use cool_down.Client.SockManager.Lists.{SockPtr}
use cool_down.Client.Torrent.{get_one_file_of_same_fileid}
use cool_down.Client.LocalFiles.{get_file, has_local_file}
use cool_down.Client.JobInfo.{FileOwnerInfo, OwnerInfoMap, DownloadInfo, JobInfo}
use cool_down.Client.ChunkSelector.{
  ChunkInfo, ChunkStatus, free, downloading, finished, failed, noowner, ChunkQueue, init_queue,
  get_chunk, report_success_chunk, report_failed_chunk, report_no_owner_chunk,
}
use cool_down.Client.TrackerCalls.{Exchange}
use cool_down.Client.Bitmaps.{Blocks}
use cool_down.Client.Owners.{Greeting, reinit_file_owner_info}

pub record DownloadTask : Type 0 where
  pub fileid : String
  pub chunk_pos : ℕ
  pub clientid : String
  pub sock : SockPtr
  pub reported : Bool

-- At the top of the loop; after the loop; ended by an exception; in the wait for a socket to the client;
-- in the wait for a thread.
pub data Place : Type 0 where
  looping left broken : Place
  needs_sock : ChunkInfo → String → Place
  needs_thread : String → ChunkInfo → String → SockPtr → Place

-- `tasks` are those of `tm_` that have not been finished, and `dropped` the chunks that
-- nothing has any more: the log says that their task could not be started, or the thread of the job
-- has ended by an exception.
pub record Run : Type 0 where
  pub info : JobInfo
  pub manager : SockManager
  pub queue : ChunkQueue
  pub tasks : List DownloadTask
  pub place : Place
  pub dropped : List (String × ℕ)

-- What the network gives to one search for owners.
pub record Search : Type 0 where
  pub asked : Exchange
  pub greetings : List Greeting

-- `min_element` over the payloads: the first owner with the smallest one.
unfoldable pub min_payload : SockManager → FileOwnerInfo → List FileOwnerInfo → FileOwnerInfo
min_payload m best [] = best
min_payload m best (o ∷ os) =
    let less = ltb (get_payload_percentage m o.clientid) (get_payload_percentage m best.clientid) in
    min_payload m (if less then o else best) os

abbrev pub new_task : String → ChunkInfo → String → SockPtr → DownloadTask
new_task fileid c clientid sock = record {
  fileid = fileid;
  chunk_pos = c.chunk_num;
  clientid = clientid;
  sock = sock;
  reported = false;
}

-- The `catch` around the start of a task.
abbrev pub drop_chunk : Run → String → ChunkInfo → Run
drop_chunk s fileid c = record s { place = looping; dropped = (fileid, c.chunk_num) ∷ s.dropped }

-- From the socket to the wait for a thread.
unfoldable pub prepare : ChunkInfo → String → SockPtr → Run → Outcome Run
prepare c clientid sock s = do
  file ← get_one_file_of_same_fileid s.info.torrent_info c.fileid
  assert (has_local_file s.info.local_files c.fileid file.file.relative_path file.file.filename)
  elim (get_file s.info.local_files c.fileid) [
    | none ↦ done (drop_chunk s file.fileid c)
    | some path ↦ done (record s { place = needs_thread file.fileid c clientid sock })
  ]

-- One try to get a socket, from the loop and from each wake-up.
unfoldable pub ask_sock : ChunkInfo → String → SockPtr → Run → Outcome Run
ask_sock c clientid fresh s = do
  (m, sock) ← get_idle_client_sock s.manager clientid fresh
  elim sock [
    | none ↦ do
      _ ← get_sock_idel_condition m clientid
      done (record s { manager = m; place = needs_sock c clientid })
    | some k ↦ prepare c clientid (some k) (record s { manager = m })
  ]

unfoldable pub download_from : ChunkInfo → List FileOwnerInfo → SockPtr → Run → Outcome Run
download_from c [] fresh s = do
  q ← report_no_owner_chunk s.info.owner_info_map s.queue c.chunk_num c.fileid
  done (record s { queue = q })
download_from c (o ∷ os) fresh s = ask_sock c (min_payload s.manager o os).clientid fresh s

abbrev pub is_noowner : ChunkStatus → Bool
is_noowner noowner = true
is_noowner _ = false

-- The wait for a thread: `available` says whether there is one, and `starts` whether the task can be
-- made and started. Without a thread the wait goes on.
unfoldable pub launch : Bool → Bool → String → ChunkInfo → String → SockPtr → Run → Run
launch available starts fileid c clientid sock s =
    if available
    then if starts
      then record s { tasks = s.tasks ++ new_task fileid c clientid sock ∷ []; place = looping }
      else drop_chunk s fileid c
    else s

abbrev pub before_search : JobInfo → SockManager → Run
before_search info m = record {
  info = info;
  manager = m;
  queue = [];
  tasks = [];
  place = looping;
  dropped = [];
}

module _ (boost : Blocks) (self_id : String) where
  -- The search of `run` for the owners of one file.
  unfoldable pub search : String → Search → Run → Outcome Run
  search fileid x s = do
    (info, m) ← reinit_file_owner_info boost self_id fileid x.asked x.greetings (s.info, s.manager)
    done (record s { info = info; manager = m })

  -- The chunk has been taken from the queue. Its list of owners is the one of the time it was queued.
  unfoldable pub take_chunk : ChunkInfo → Search → SockPtr → Run → Outcome Run
  take_chunk c x fresh s = do
    s' ← if is_noowner c.status then search c.fileid x s else done s
    download_from c c.client_lists fresh s'

  -- One round of the loop, up to the first wait. The wait of a paused job throws when its second has
  -- passed and nothing has signalled it.
  unfoldable pub turn : Bool → Search → SockPtr → Run → Outcome Run
  turn signalled x fresh s =
      if s.info.download_info.is_job_removed
      then done (record s { place = left })
      else if s.info.download_info.is_stopped
      then done s
      else if s.info.download_info.is_download_paused
      then (if signalled then done s else throw exception)
      else let (c, q) = get_chunk s.queue in
        elim c [
          | none ↦ done (record s { queue = q; place = left })
          | some chunk ↦ take_chunk chunk x fresh (record s { queue = q })
        ]

  -- What `run` does before the loop: the files without an entry are searched for, in the order of the
  -- list, and the queue is made. A search makes an entry, so that no file is searched for twice.
  unfoldable pub search_files : (String → Search) → List String → Run → Outcome Run
  search_files net [] s = done s
  search_files net (f ∷ fs) s = do
    s' ← if contains f s.info.owner_info_map then done s else search f (net f) s
    search_files net fs s'

  unfoldable pub start_run : (String → Search) → JobInfo → SockManager → Outcome Run
  start_run net info m = do
    s ← search_files net info.fileidlist (before_search info m)
    q ← init_queue s.info
    done (record s { queue = q })

-- What an exception in a round of the loop leaves: the chunk that was taken is nowhere. A search that
-- throws may have changed the owners.
abbrev pub unwound : OwnerInfoMap → Run → Run
unwound owners s =
    let s' = record s { info = record (s.info) { owner_info_map = owners }; place = broken } in
    if s.info.download_info.is_download_paused
    then s'
    else let (c, q) = get_chunk s.queue in
      elim c [
        | none ↦ s'
        | some chunk ↦ record s' {
          queue = q;
          dropped = (chunk.fileid, chunk.chunk_num) ∷ s.dropped;
        }
      ]

-- And one after a wait for a socket.
abbrev pub given_up : ChunkInfo → Run → Run
given_up c s = record s { place = broken; dropped = (c.fileid, c.chunk_num) ∷ s.dropped }

abbrev pub set_reported : DownloadTask → DownloadTask
set_reported t = record t { reported = true }

-- `onFailed` for the task between the two lists
unfoldable pub on_failed : List DownloadTask → DownloadTask → List DownloadTask → Run → Outcome Run
on_failed before t after s = do
  q ← report_failed_chunk s.info.owner_info_map s.queue t.chunk_pos t.fileid
  done (record s { queue = q; tasks = before ++ set_reported t ∷ after })

-- The bits when a task has ended that `onFailed` may have reported.
abbrev pub bits_after : DownloadTask → DownloadInfo → Outcome DownloadInfo
bits_after t d = if t.reported then done d else report_success_chunk d t.chunk_pos t.fileid

-- `onFinished`, which is called for a failed task too
unfoldable pub on_finished :
    List DownloadTask → DownloadTask → List DownloadTask → Run → Outcome Run
on_finished before t after s = do
  d ← bits_after t s.info.download_info
  (m, _) ← return_sock s.manager t.clientid t.sock
  done (record s {
    info = record (s.info) { download_info = d };
    manager = m;
    tasks = before ++ after;
  })
