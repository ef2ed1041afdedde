-- ===== src/Client/Collector.antt =====
-- client/src/client.cc: `onJobInfoCollectorWakeUp`, which the timer of `JobInfoCollector` calls once a
-- second, and `ReportProgressRoutine`. The formatted speeds, which only go to the log, are left out. The
-- percentage is computed in floating point, which is a parameter. Byte counts wrap at 64 bits.
pub mod Reports
pub mod Totals
mod Tests
use cool_down.Prelude.{
  ℕ, ◌+◌, ◌-◌, ◌%◌, ◌^◌, String, Option, none, some, List, [], ◌∷◌, ◌++◌, Bool, true, false, ◌&&◌,
  length, ◌==◌, if◌then◌else◌, string_key, suc, zero,
}
use cool_down.Prelude.Int.{ℤ, pos, negsuc, ◌-ℤ◌}
use cool_down.Prelude.Map.{Map, insert}
use cool_down.Client.JobInfo.{Bitmap, count, DownloadInfo, JobInfo, report_period}
use cool_down.Client.Jobs.{Job, Jobs, with_download}

pub record ProgressInfo : Type 0 where
  pub tracker_address : String
  pub fileid : String
  pub percentage : ℤ

abbrev pub is_zero : ℤ → Bool
is_zero (pos zero) = true
is_zero (pos (suc n)) = false
is_zero (negsuc n) = false

-- The countdown of a job, and whether it reports now.
unfoldable pub count_down : Bool → ℤ → ℤ × Bool
count_down running time =
    let left = time -ℤ pos 1 in
    if is_zero left && running then (pos report_period, true) else (left, false)

module _ (percent : ℕ → ℕ → ℤ) where
  -- `(double)count / size * 100`, cut to an `int`, for each file of the job
  unfoldable pub progress_of : String → Map String Bitmap → List ProgressInfo
  progress_of tracker_address [] = []
  progress_of tracker_address ((fileid, bits) ∷ m) =
      record {
        tracker_address = tracker_address;
        fileid = fileid;
        percentage = percent (count bits) (length bits);
      }
      ∷ progress_of tracker_address m

  unfoldable pub note_percentages : List ProgressInfo → Map String ℤ → Map String ℤ
  note_percentages [] m = m
  note_percentages (p ∷ ps) m = note_percentages ps (insert p.fileid p.percentage m)

  unfoldable pub wake_download : Bool → String → DownloadInfo → DownloadInfo × List ProgressInfo
  unfolding progress_of note_percentages count_down
  wake_download running tracker_address d =
      let (left, need_to_report) = count_down running d.time_to_next_report in
      let progress = progress_of tracker_address d.bitmap_map in
      (
        record d {
          time_to_next_report = left;
          percentage_map = note_percentages progress d.percentage_map;
          upload_total = (d.upload_total + d.bytes_upload_this_second) % 2 ^ 64;
          download_total = (d.download_total + d.bytes_download_this_second) % 2 ^ 64;
          bytes_upload_this_second = 0;
          bytes_download_this_second = 0;
        },
        if need_to_report then progress else [],
      )

  -- One job of the loop: the job with its new counters, and what it has to report.
  unfoldable pub wake_job : Job → Job × List ProgressInfo
  unfolding wake_download
  wake_job job =
      let (d, progress) =
        wake_download job.is_running job.info.torrent_info.torrent.tracker_address
          job.info.download_info in
      (with_download (λ _. d) job, progress)

  unfoldable pub wake_jobs : Map ℕ Job → Map ℕ Job × List ProgressInfo
  unfolding wake_job
  wake_jobs [] = ([], [])
  wake_jobs ((handle, job) ∷ jobs) =
      let (job', progress) = wake_job job in
      let (jobs', rest) = wake_jobs jobs in ((handle, job') ∷ jobs', progress ++ rest)

  -- `pending` is `progress_info_to_report_`, which the new list replaces if it is not empty.
  unfoldable pub on_wake_up : Jobs → List ProgressInfo → Jobs × List ProgressInfo
  unfolding wake_jobs
  on_wake_up c pending =
      let (jobs, progress) = wake_jobs c.jobs in
      (record c { jobs = jobs }, elim progress [ [] ↦ pending | p ∷ ps ↦ p ∷ ps ])

-- One round of `ReportProgressRoutine`: it waits, ends, or takes the list and reports each entry.
pub data Round : Type 0 where
  waits ends : Round
  reports : List ProgressInfo → Round

unfoldable pub report_round : Bool → List ProgressInfo → Round × List ProgressInfo
report_round true pending = (ends, pending)
report_round false [] = (waits, [])
report_round false (p ∷ ps) = (reports (p ∷ ps), [])
