-- ===== src/Client/History/Reloaded.antt =====
-- A job from the history against the job that was saved, and a job that cannot be saved.
use cool_down.Prelude.{
  ℕ, ◌<◌, ◌≡◌, refl, ◌∙◌, String, some, true, false, map, string_key, nat_key, All,
}
use cool_down.Prelude.Map.{Map, lookup, lookup-insert, member, beq_refl}
use cool_down.ErrorCode.{RetCode}
use cool_down.Outcome.{
  done, or_throw, assertion, Returns, Returns-bind, >>=-eq-done, done-injective,
}
use cool_down.Client.Torrent.{Torrent}
use cool_down.Client.LocalFiles.{FileSystem}
use cool_down.Client.JobInfo.{DownloadInfo, JobInfo, job_info}
use cool_down.Client.Jobs.{Job, Jobs, has_torrent, register_torrent, add_new_job}
use cool_down.Client.Bitmaps.{Blocks, IsBlockwise}
use cool_down.Client.History.{
  FileInfo, JobHistoryInfo, identity_of, with_totals, waiting, save_files, save_job, load_bitmaps,
  reload_one_job,
}
use cool_down.Client.History.Saved.{IsSaved, IsLoaded, save_files-IsSaved, load_bitmaps-IsLoaded}

-- The new job has the bitmaps, the totals and the flags that it should.
pub record IsReloaded (job : Job) (h : JobHistoryInfo) (handle : ℕ) (c : Jobs) : Type 0 where
  pub new : Job
  pub listed : lookup handle c.jobs ≡ some new
  pub uploaded : new.info.download_info.upload_total ≡ job.info.download_info.upload_total
  pub downloaded : new.info.download_info.download_total ≡ job.info.download_info.download_total
  pub paused : new.info.download_info.is_download_paused ≡ true
  pub going : new.info.download_info.is_stopped ≡ false
  pub bitmaps :
      (f : String)
      → member f (map (λ (x : FileInfo). x.fileid) h.files) ≡ true
      → lookup f new.info.download_info.bitmap_map ≡ lookup f job.info.download_info.bitmap_map
  pub path : lookup handle c.torrent_path_map ≡ some h.torrent_path

-- What saving a job tells of it.
record IsSavedJob (boost : Blocks) (job : Job) (h : JobHistoryInfo) : Type 0 where
  saved : All (IsSaved boost job.info.download_info) h.files
  up : h.upload_total ≡ job.info.download_info.upload_total
  down : h.download_total ≡ job.info.download_info.download_total

save_job-parts :
    (boost : Blocks) (paths : Map ℕ String) (handle : ℕ) (job : Job) (h : JobHistoryInfo)
    → save_job boost paths handle job ≡ done h
    → IsSavedJob boost job h
unfolding save_job
save_job-parts boost paths handle job h e =
    let (path, _, rest) = >>=-eq-done (or_throw assertion (lookup handle paths)) _ e in
    let (files, found, last) =
      >>=-eq-done (save_files boost job.info.download_info job.info.torrent_info.file_map) _ rest in
    let made = done-injective last in
    let all : All (IsSaved boost job.info.download_info) files =
      rw found at
        (save_files-IsSaved boost job.info.download_info job.info.torrent_info.file_map) in
    rw⁻¹ made (record { saved = all; up = refl; down = refl })

reloaded :
    (boost : Blocks) (job : Job) (h : JobHistoryInfo) (c : Jobs) (id : String) (info : JobInfo)
    (d0 d : DownloadInfo)
    → IsSavedJob boost job h
    → d0.upload_total ≡ h.upload_total
    → d0.download_total ≡ h.download_total
    → IsLoaded boost job.info.download_info d0 h.files d
    → IsReloaded job h c.job_index
        (add_new_job
          (register_torrent c id)
          (record info { download_info = waiting d })
          h.torrent_path).0
unfolding add_new_job register_torrent
reloaded boost job h c id info d0 d k up down l = record {
  new = record { info = record info { download_info = waiting d }; is_running = false };
  listed = rw (lookup-insert c.job_index c.job_index _ c.jobs, beq_refl c.job_index) refl;
  uploaded = l.uploaded ∙ up ∙ k.up;
  downloaded = l.downloaded ∙ down ∙ k.down;
  paused = refl;
  going = refl;
  bitmaps = λ f has. l.bitmaps f ∙ rw has refl;
  path =
      rw
        (
          lookup-insert c.job_index c.job_index h.torrent_path c.torrent_path_map,
          beq_refl c.job_index,
        )
        refl;
}

module _ (boost : Blocks) (laws : IsBlockwise boost) (fs : FileSystem) where
  open fs use {Disk}

  -- A job was saved, and each file that was saved has a chunk. If its torrent is not registered, the
  -- job is loaded again under the next handle: with the bitmap of every file that was saved, the two
  -- totals and the path of the torrent, and with its download paused.
  pub reload_one_job-save_job :
      (paths : Map ℕ String) (handle : ℕ) (job : Job) (h : JobHistoryInfo) (c : Jobs)
      (torrent : Torrent) (up down : ℕ) (disk : Disk)
      → save_job boost paths handle job ≡ done h
      → has_torrent c torrent.torrent_id ≡ false
      → All (λ x. 0 < x.file_bit_count) h.files
      → Returns
          (λ out. (out.2 ≡ RetCode.ok) × IsReloaded job h c.job_index out.0)
          (reload_one_job boost fs c torrent h up down disk)
  unfolding reload_one_job
  reload_one_job-save_job paths handle job h c torrent up down disk e fresh sized =
      let k = save_job-parts boost paths handle job h e in
      let info : JobInfo =
        (job_info fs torrent h.local_top_path (map identity_of h.files) up down disk).0 in
      let d0 = with_totals h info.download_info in
      rw (fresh, reload_one_job)
        (Returns-bind _ (load_bitmaps boost h.files d0) _
          (load_bitmaps-IsLoaded boost laws job.info.download_info h.files d0 k.saved sized)
          λ d l. (refl, reloaded boost job h c torrent.torrent_id info d0 d k refl refl l))
