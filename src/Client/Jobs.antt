-- ===== src/Client/Jobs.antt =====
-- client/src/client.cc: the table of jobs of `CoolClient` and the calls that control them. Handles do
-- not wrap. A pointer to a job stands in one of the two tables only, so the table holds the job.
pub mod Invariant
pub mod Control
mod Tests
use cool_down.Prelude.{
  ℕ, suc, ◌+◌, String, Option, none, some, List, [], ◌∷◌, ◌++◌, Bool, true, false, map, ◌==◌,
  if◌then◌else◌, string_key, nat_key,
}
use cool_down.Prelude.Map.{Map, lookup, insert, erase, contains, member, add}
use cool_down.ErrorCode.{RetCode, is_ok}
use cool_down.Outcome.{Outcome, done, throw, exception, assertion, ◌>>=◌}
use cool_down.Client.Torrent.{FileEntry, Torrent}
use cool_down.Client.LocalFiles.{FileIdentityInfo, FileSystem}
use cool_down.Client.JobInfo.{Bitmap, DownloadInfo, JobInfo, identity, job_info}

pub record Job : Type 0 where
  pub info : JobInfo
  pub is_running : Bool

-- `started` lists the handles whose jobs have been given to the thread pool, the last one first.
pub record Jobs : Type 0 where
  pub job_index : ℕ
  pub jobs : Map ℕ Job
  pub removed_jobs : Map ℕ Job
  pub torrent_path_map : Map ℕ String
  pub torrent_ids : List String
  pub started : List ℕ

abbrev pub no_jobs : Jobs
no_jobs = record {
  job_index = 0;
  jobs = [];
  removed_jobs = [];
  torrent_path_map = [];
  torrent_ids = [];
  started = [];
}

unfoldable pub get_job : Jobs → ℕ → Option Job
get_job c handle = lookup handle c.jobs

-- The first job, by handle, that downloads or offers the file.
unfoldable pub job_with_file : String → Map ℕ Job → Option Job
job_with_file fileid [] = none
job_with_file fileid ((_, job) ∷ jobs) =
    if member fileid job.info.fileidlist then some job else job_with_file fileid jobs

unfoldable pub get_job_by_fileid : Jobs → String → Option Job
unfolding job_with_file
get_job_by_fileid c fileid = job_with_file fileid c.jobs

abbrev pub with_download : (DownloadInfo → DownloadInfo) → Job → Job
with_download f job = record job {
  info = record (job.info) { download_info = f job.info.download_info };
}

abbrev pub stopped : DownloadInfo → DownloadInfo
stopped d = record d { is_stopped = true }

abbrev pub paused : DownloadInfo → DownloadInfo
paused d = record d { is_download_paused = true }

abbrev pub resumed : DownloadInfo → DownloadInfo
resumed d = record d { is_stopped = false; is_download_paused = false }

abbrev pub removed : DownloadInfo → DownloadInfo
removed d = record d { is_job_removed = true }

-- The shape of three of the calls: find the job and change its flags.
unfoldable pub change : (DownloadInfo → DownloadInfo) → Jobs → ℕ → Jobs × RetCode
unfolding get_job
change f c handle = elim (get_job c handle) [
  | none ↦ (c, RetCode.job_not_exists)
  | some job ↦ (record c { jobs = insert handle (with_download f job) c.jobs }, RetCode.ok)
]

unfoldable pub stop_job : Jobs → ℕ → Jobs × RetCode
unfolding change
stop_job = change stopped

unfoldable pub pause_job : Jobs → ℕ → Jobs × RetCode
unfolding change
pause_job = change paused

unfoldable pub resume_job : Jobs → ℕ → Jobs × RetCode
unfolding change
resume_job = change resumed

-- The job is looked up again after it has been resumed. The thread pool may have no thread left.
unfoldable pub launch : Bool → Jobs → ℕ → Jobs × Outcome RetCode
unfolding get_job
launch thread c handle = elim (get_job c handle) [
  | none ↦ (c, throw assertion)
  | some job ↦
      if job.is_running
      then (c, done RetCode.job_already_started)
      else if thread
      then (record c { started = handle ∷ c.started }, done RetCode.ok)
      else (c, throw exception)
]

unfoldable pub start_job : Bool → Jobs → ℕ → Jobs × Outcome RetCode
unfolding resume_job launch is_ok
start_job thread c handle =
    let (c', ret) = resume_job c handle in
    if is_ok ret then launch thread c' handle else (c', done ret)

unfoldable pub remove_job : Jobs → ℕ → Jobs × RetCode
unfolding get_job
remove_job c handle = elim (get_job c handle) [
  | none ↦ (c, RetCode.job_not_exists)
  | some job ↦ (
    record c {
      jobs = erase handle c.jobs;
      removed_jobs = insert handle (with_download removed job) c.removed_jobs;
    },
    RetCode.ok,
  )
]

unfoldable pub has_torrent : Jobs → String → Bool
has_torrent c torrent_id = member torrent_id c.torrent_ids

unfoldable pub register_torrent : Jobs → String → Jobs
register_torrent c torrent_id = record c { torrent_ids = add torrent_id c.torrent_ids }

-- The new job is not running. The second result is the handle.
unfoldable pub add_new_job : Jobs → JobInfo → String → Jobs × ℕ
add_new_job c info torrent_path = (
  record c {
    jobs = insert c.job_index (record { info = info; is_running = false }) c.jobs;
    job_index = c.job_index + 1;
    torrent_path_map = insert c.job_index torrent_path c.torrent_path_map;
  },
  c.job_index,
)

-- `bitmap->set()` on each file of the torrent
unfoldable pub set_all : Bitmap → Bitmap
set_all [] = []
set_all (_ ∷ bits) = true ∷ set_all bits

unfoldable pub complete : List FileEntry → Map String Bitmap → Map String Bitmap
unfolding set_all
complete [] m = m
complete (f ∷ fs) m =
    complete fs
      (elim (lookup f.check_sum m) [ none ↦ m | some bits ↦ insert f.check_sum (set_all bits) m ])

-- The file ids that are published to the tracker, each once; the replies are not looked at.
unfoldable pub published : List FileEntry → List String → List String
published [] seen = []
published (f ∷ fs) seen = elim (member f.check_sum seen) [
  | true ↦ published fs seen
  | false ↦ f.check_sum ∷ published fs (add f.check_sum seen)
]

module _ (fs : FileSystem) where
  open fs use {Disk}

  -- What the two totals of the new job are found to be is an argument.
  unfoldable pub add_new_download_job :
      Jobs
      → String
      → Torrent
      → List FileIdentityInfo
      → String
      → ℕ
      → ℕ
      → Disk
      → Jobs × Disk × (RetCode × Option ℕ)
  unfolding has_torrent register_torrent add_new_job
  add_new_download_job c torrent_path torrent needs top_path up down disk =
      if has_torrent c torrent.torrent_id
      then (c, disk, (RetCode.job_exists, none))
      else let (info, disk') = job_info fs torrent top_path needs up down disk in
        let (c', handle) = add_new_job (register_torrent c torrent.torrent_id) info torrent_path in
        (c', disk', (RetCode.ok, some handle))

  unfoldable pub add_new_upload_job :
      Jobs → String → String → Torrent → ℕ → ℕ → Disk → Jobs × Disk × (RetCode × Option ℕ)
  unfolding has_torrent register_torrent add_new_job complete
  add_new_upload_job c torrent_path top_path torrent up down disk =
      if has_torrent c torrent.torrent_id
      then (c, disk, (RetCode.job_exists, none))
      else let (info, disk') =
          job_info fs torrent top_path (map identity torrent.files) up down disk in
        let d = info.download_info in
        let full = record info {
          download_info = record d { bitmap_map = complete torrent.files d.bitmap_map };
        } in
        let (c', handle) = add_new_job (register_torrent c torrent.torrent_id) full torrent_path in
        (c', disk', (RetCode.ok, some handle))

-- The calls that change the table, for histories of calls.
pub data Call : Type 0 where
  starts : Bool → ℕ → Call
  stops pauses resumes removes : ℕ → Call
  adds : JobInfo → String → Call

unfoldable pub step : Jobs → Call → Jobs
step c (starts thread handle) = (start_job thread c handle).0
step c (stops handle) = (stop_job c handle).0
step c (pauses handle) = (pause_job c handle).0
step c (resumes handle) = (resume_job c handle).0
step c (removes handle) = (remove_job c handle).0
step c (adds info path) = (add_new_job c info path).0

unfoldable pub run : Jobs → List Call → Jobs
run c [] = c
run c (k ∷ ks) = run (step c k) ks
