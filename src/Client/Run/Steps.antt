-- ===== src/Client/Run/Steps.antt =====
-- The interleavings of the threads of a job, as steps. The thread of the job takes its own step where it
-- stands; a task fails or is finished when it likes, as `TaskManager` notifies it: a failed task first as
-- failed and later as finished. A round that throws ends the thread of the job; a handler that throws
-- ends the thread of its task, which stays among the tasks. The calls that stop, pause and remove the
-- job set its flags at any time, and what other threads do with the sockets may leave any table of them.
use cool_down.Prelude.{◌≡◌, String, List, ◌∷◌, ◌++◌, Bool, false}
use cool_down.Outcome.{done, throw, Fault}
use cool_down.Client.SockManager.{SockManager, return_sock}
use cool_down.Client.SockManager.Lists.{SockPtr}
use cool_down.Client.JobInfo.{DownloadInfo, OwnerInfoMap}
use cool_down.Client.ChunkSelector.{ChunkInfo}
use cool_down.Client.Bitmaps.{Blocks}
use cool_down.Client.Run.{
  Run, DownloadTask, looping, needs_sock, needs_thread, Search, turn, unwound, given_up,
  set_reported, bits_after, ask_sock, launch, on_failed, on_finished,
}

abbrev pub flagged : Bool → Bool → Bool → DownloadInfo → DownloadInfo
flagged removed stopped paused d = record d {
  is_job_removed = removed;
  is_stopped = stopped;
  is_download_paused = paused;
}

abbrev pub set_flags : Bool → Bool → Bool → Run → Run
set_flags removed stopped paused s = record s {
  info = record (s.info) { download_info = flagged removed stopped paused s.info.download_info };
}

-- The socket of a task that has set its bit could not be returned.
abbrev pub stuck : List DownloadTask → DownloadTask → List DownloadTask → DownloadInfo → Run → Run
stuck before t after d s = record s {
  info = record (s.info) { download_info = d };
  tasks = before ++ set_reported t ∷ after;
}

module _ (boost : Blocks) (self_id : String) where
  pub data Step (s : Run) : Run → Type 0 where
    turns :
        {s' : Run} (signalled : Bool) (x : Search) (fresh : SockPtr)
        → s.place ≡ looping
        → turn boost self_id signalled x fresh s ≡ done s'
        → Step s s'
    turn_throws :
        (signalled : Bool) (x : Search) (fresh : SockPtr) (e : Fault) (owners : OwnerInfoMap)
        → s.place ≡ looping
        → turn boost self_id signalled x fresh s ≡ throw e
        → Step s (unwound owners s)
    wakes :
        {s' : Run} (c : ChunkInfo) (clientid : String) (fresh : SockPtr)
        → s.place ≡ needs_sock c clientid
        → ask_sock c clientid fresh s ≡ done s'
        → Step s s'
    wake_throws :
        (c : ChunkInfo) (clientid : String) (fresh : SockPtr) (e : Fault)
        → s.place ≡ needs_sock c clientid
        → ask_sock c clientid fresh s ≡ throw e
        → Step s (given_up c s)
    launches :
        (available starts : Bool) (fileid : String) (c : ChunkInfo) (clientid : String)
        (sock : SockPtr)
        → s.place ≡ needs_thread fileid c clientid sock
        → Step s (launch available starts fileid c clientid sock s)
    fails :
        {s' : Run} (before : List DownloadTask) (t : DownloadTask) (after : List DownloadTask)
        → s.tasks ≡ before ++ t ∷ after
        → t.reported ≡ false
        → on_failed before t after s ≡ done s'
        → Step s s'
    finishes :
        {s' : Run} (before : List DownloadTask) (t : DownloadTask) (after : List DownloadTask)
        → s.tasks ≡ before ++ t ∷ after
        → on_finished before t after s ≡ done s'
        → Step s s'
    fail_throws :
        (before : List DownloadTask) (t : DownloadTask) (after : List DownloadTask) (e : Fault)
        → s.tasks ≡ before ++ t ∷ after
        → t.reported ≡ false
        → on_failed before t after s ≡ throw e
        → Step s s
    finish_throws :
        (before : List DownloadTask) (t : DownloadTask) (after : List DownloadTask) (e : Fault)
        → s.tasks ≡ before ++ t ∷ after
        → bits_after t s.info.download_info ≡ throw e
        → Step s s
    return_throws :
        (before : List DownloadTask) (t : DownloadTask) (after : List DownloadTask)
        (d : DownloadInfo) (e : Fault)
        → s.tasks ≡ before ++ t ∷ after
        → bits_after t s.info.download_info ≡ done d
        → return_sock s.manager t.clientid t.sock ≡ throw e
        → Step s (stuck before t after d s)
    sets : (removed stopped paused : Bool) → Step s (set_flags removed stopped paused s)
    elsewhere : (m : SockManager) → Step s (record s { manager = m })

  -- The states that can come from one.
  pub data Reach (s : Run) : Run → Type 0 where
    start : Reach s s
    later : {t u : Run} → Reach s t → Step t u → Reach s u
