-- ===== src/Client/Programs.antt =====
-- client/src/client.cc: `CoolClient::main`, from the arguments to the code of the process. A program
-- starts with an empty table of jobs and no connection, as `initialize` leaves them; the threads that it
-- starts and waits for are those of Client.Run, Client.Collector and Client.ConnectionHandler, whose
-- requests to the tracker are not counted here.
pub mod Setting
pub mod Requests
pub mod Publishing
pub mod Known
mod Tests
use cool_down.Prelude.{
  ℕ, String, Option, none, some, List, [], ◌∷◌, ◌++◌, Bool, true, false, map, if◌then◌else◌, ◌&&◌,
  not,
}
use mathlib.Core.Option.{map as option_map}
use cool_down.Prelude.Int.{ℤ, pos}
use cool_down.ErrorCode.{RetCode, is_ok}
use cool_down.Outcome.{Outcome, done, throw, exception, ◌>>=◌}
use cool_down.Messages.{Message}
use cool_down.Client.Torrent.{Torrent}
use cool_down.Client.LocalFiles.{FileSystem}
use cool_down.Client.JobInfo.{identity}
use cool_down.Client.SockManager.{SockManager, empty}
use cool_down.Client.Jobs.{
  Jobs, no_jobs, has_torrent, start_job, resume_job, published, add_new_download_job,
  add_new_upload_job,
}
use cool_down.Client.TrackerCalls.{
  Attempt, Sent, login_tracker, logout_from_tracker, publish_resource_to_tracker,
}
use cool_down.Client.Bitmaps.{Blocks}
use cool_down.Client.History.{History, parse_torrent, reload_job_history}
use cool_down.Client.Verification.{DigestEngine}
use cool_down.Client.MakeTorrent.{make_torrent}
use cool_down.Client.Programs.Setting.{
  Exit, exit_ok, exit_tempfail, exit_code, Ended, tracker_address, downloader, head, noted,
  Surroundings,
}
use cool_down.Client.MakeTorrent.Listing.{Entry}

-- The code of a publication is only logged, an exception ends the loop.
abbrev pub then_publish :
    Option Message
    → Outcome RetCode
    → List Message × Outcome (Unit {0})
    → List Message × Outcome (Unit {0})
then_publish request (throw e) rest = (noted request, throw e)
then_publish request (done ret) (requests, out) = (noted request ++ requests, out)

-- The loop of `AddNewUploadJob` over the files that it publishes.
unfoldable pub publish_all :
    SockManager
    → String
    → String
    → (String → Attempt)
    → List String
    → List Message × Outcome (Unit {0})
unfolding publish_resource_to_tracker
publish_all m clientid address x [] = ([], done tt)
publish_all m clientid address x (f ∷ fs) =
    let (request, out) = publish_resource_to_tracker m clientid address f (x f) in
    then_publish request out (publish_all m clientid address x fs)

module _ (boost : Blocks) (sha : DigestEngine) (fs : FileSystem)
    (around : Surroundings sha fs) where
  open fs use {Disk}
  open around use {
    disk, local_port, connected, at_login, at_logout, at_publish, histories, torrents, rewritten,
    parent, resources, now, bytes_of, opened, serialized, engine, has_thread, all_joined,
    can_listen, terminated, up, down,
  }

  -- From the log-in to the reloaded history, whose code is only logged.
  abbrev pub reload : String → Outcome (Jobs × Disk × RetCode)
  reload history_path =
      reload_job_history boost fs torrents up down (histories history_path) no_jobs disk

  -- `StartJob` and `joinAll`, which comes only after a success and may not return.
  unfoldable pub joined : Jobs → Outcome RetCode → Option (Outcome Jobs)
  unfolding is_ok
  joined c (throw e) = some (throw e)
  joined c (done ret) = if is_ok ret && not all_joined then none else some (done c)

  -- There is no job under a handle that was not set.
  unfoldable pub start_added : Jobs → RetCode × Option ℕ → Option (Outcome Jobs)
  unfolding start_job joined is_ok
  start_added c (ret, none) = some (done c)
  start_added c (ret, some handle) =
      let (c', out) = start_job has_thread c handle in
      if is_ok ret then joined c' out else some (done c)

  -- The job of the downloading program
  unfoldable pub download_job : Jobs → String → Torrent → Disk → Option (Outcome Jobs)
  unfolding has_torrent add_new_download_job start_added
  download_job c path torrent disk' =
      let (c', disk'', added) =
        add_new_download_job fs c path torrent (map identity torrent.files) "/tmp/" up down disk' in
      if has_torrent c torrent.torrent_id then some (done c) else start_added c' added

  abbrev pub log_out : SockManager → String → List Message → Outcome Jobs → Ended
  log_out m clientid requests (throw e) = (requests, throw e)
  log_out m clientid requests (done c) =
      let (request, out) = logout_from_tracker m clientid tracker_address at_logout in
      (requests ++ noted request, (do _ ← out; done (exit_ok, c)))

  -- What the downloading program does once it has logged in.
  unfoldable pub download : SockManager → String → List Message → String → Option Ended
  unfolding reload_job_history parse_torrent download_job logout_from_tracker
  download m clientid requests path = elim (reload "/tmp/download.history") [
    | throw e ↦ some (requests, throw e)
    | done (c, disk', _) ↦
        let (ret, parsed) = parse_torrent boost fs (torrents path) in
        elim parsed [
          | none ↦ some (requests, done (exit_code ret, c))
          | some torrent ↦
              option_map (log_out m clientid requests) (download_job c path torrent disk')
        ]
  ]

  abbrev pub resumed : Jobs → RetCode × Option ℕ → Jobs
  resumed c (ret, none) = c
  resumed c (ret, some handle) = if is_ok ret then (resume_job c handle).0 else c

  -- The requests of AddNewUploadJob
  unfoldable pub publishing :
      SockManager → String → Jobs → Torrent → List Message × Outcome (Unit {0})
  unfolding has_torrent publish_all published
  publishing m clientid c torrent =
      if has_torrent c torrent.torrent_id
      then ([], done tt)
      else publish_all m clientid torrent.tracker_address at_publish (published torrent.files [])

  -- They, and the table with the job, resumed, if they raise no exception.
  unfoldable pub upload_job :
      SockManager → String → Jobs → String → String → Torrent → Disk → List Message × Outcome Jobs
  unfolding add_new_upload_job resume_job publishing is_ok
  upload_job m clientid c path top_path torrent disk' =
      let (c', disk'', added) = add_new_upload_job fs c path top_path torrent up down disk' in
      let (requests, out) = publishing m clientid c torrent in
      (requests, (do _ ← out; done (resumed c' added)))

  -- The client listens on its port, which raises an exception if the port is taken, until the process
  -- is asked to end, which it may never be.
  unfoldable pub listen : Outcome Jobs → Option (Outcome Jobs)
  listen (throw e) = some (throw e)
  listen (done c) =
      if can_listen then (if terminated then some (done c) else none) else some (throw exception)

  -- The torrent that was made is read back; whether it was made is only logged.
  unfoldable pub offer :
      SockManager
      → String
      → List Message
      → String
      → String
      → Jobs × Disk
      → Option Torrent
      → Option Ended
  unfolding parse_torrent upload_job logout_from_tracker listen
  offer m clientid requests resource_path path (c, disk') made =
      elim (parse_torrent boost fs (rewritten made)).1 [
        | none ↦ some (requests, done (exit_tempfail, c))
        | some torrent ↦
            let (publishing, out) =
              upload_job m clientid c path (parent resource_path) torrent disk' in
            option_map (log_out m clientid (requests ++ publishing)) (listen out)
      ]

  -- What the uploading program does once it has tried to log in. It does not end where MakeTorrent or
  -- the wait does not.
  unfoldable pub upload : SockManager → String → List Message → String → String → Option Ended
  unfolding reload_job_history make_torrent offer
  upload m clientid requests resource_path path = elim (reload "/tmp/upload.history") [
    | throw e ↦ some (requests, throw e)
    | done (c, disk', _) ↦
        let (exists, f) = resources resource_path in
        elim (make_torrent sha exists f (parent resource_path) 1048576 (head clientid now) bytes_of
          opened serialized engine) [
            | none ↦ none
            | some (throw e) ↦ some (requests, throw e)
            | some (done (_, made)) ↦ offer m clientid requests resource_path path (c, disk') made
          ]
  ]

  -- From the outcome of the log-in. The uploading program goes on without it.
  unfoldable pub begin_download : String → SockManager × Sent → Option Ended
  unfolding download is_ok
  begin_download path (m, (request, throw e)) = some (noted request, throw e)
  begin_download path (m, (request, done ret)) =
      if is_ok ret
      then download m downloader (noted request) path
      else some (noted request, done (exit_tempfail, no_jobs))

  unfoldable pub begin_upload : String → String → String → SockManager × Sent → Option Ended
  unfolding upload
  begin_upload clientid resource_path path (m, (request, throw e)) = some (noted request, throw e)
  begin_upload clientid resource_path path (m, (request, done ret)) =
      upload m clientid (noted request) resource_path path

  -- `init_error` says that `initialize` could not make the table of sockets. `clientid` is the digest of
  -- the number of the machine.
  unfoldable pub main : Bool → String → List String → Option Ended
  unfolding login_tracker begin_download begin_upload
  main true clientid args = some ([], done (exit_tempfail, no_jobs))
  main false clientid (path ∷ []) =
      begin_download path
        (login_tracker empty downloader local_port connected tracker_address at_login)
  main false clientid (resource_path ∷ path ∷ []) =
      begin_upload clientid resource_path path
        (login_tracker empty clientid (pos 9024) connected tracker_address at_login)
  main false clientid [] = some ([], done (exit_ok, no_jobs))
  main false clientid (a ∷ b ∷ c ∷ args) = some ([], done (exit_ok, no_jobs))
