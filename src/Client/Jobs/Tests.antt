-- ===== src/Client/Jobs/Tests.antt =====
-- A table with two jobs, and the theorems at it.
use cool_down.Prelude.{
  ℕ, ◌≡◌, refl, some, List, [], ◌∷◌, true, false, if◌then◌else◌, not, ◌&&◌, ◌==◌, nat_key,
}
use cool_down.Prelude.Int.{pos}
use cool_down.Prelude.Map.{lookup, insert}
use cool_down.ErrorCode.{RetCode}
use cool_down.Client.Torrent.{torrent_info}
use cool_down.Client.LocalFiles.{new_local_files}
use cool_down.Client.JobInfo.{JobInfo, download_info}
use cool_down.Client.Jobs.{
  Job, Jobs, no_jobs, start_job, remove_job, add_new_job, with_download, resumed, removed, Call,
  starts, adds, step, run,
}
use cool_down.Client.Jobs.Invariant.{IsValid, run-no_jobs-IsValid}
use cool_down.Client.Jobs.Control.{IsGone, start_result, start_job_lem, remove_job_final}

abbrev info : JobInfo
info = record {
  fileidlist = "f" ∷ [];
  local_files = new_local_files "/top";
  owner_info_map = [];
  download_info = download_info 0 0;
  torrent_info = torrent_info (record {
    torrent_id = "t";
    kind = pos 0;
    total_size = pos 5;
    create_by = "me";
    create_time = "now";
    tracker_address = "10.0.0.2";
    files = [];
  });
}

abbrev history : List Call
history = adds info "/a.torrent" ∷ adds info "/b.torrent" ∷ []

abbrev table : Jobs
table = run no_jobs history

run-no_jobs-IsValid_example : IsValid (run no_jobs history)
run-no_jobs-IsValid_example = run-no_jobs-IsValid history

abbrev job : Job
job = record { info = info; is_running = false }

lookup_one : lookup 1 table.jobs ≡ some job
unfolding run step add_new_job lookup insert
lookup_one = refl

start_job_lem_example :
    let (c', ret) = start_job true table 1 in
    (ret ≡ start_result job.is_running true)
    × (c'.started ≡ (if not job.is_running && true then 1 ∷ table.started else table.started))
    × ((j : ℕ)
        → lookup j c'.jobs
          ≡ (if j == 1 then some (with_download resumed job) else lookup j table.jobs))
start_job_lem_example = start_job_lem true table 1 job lookup_one

remove_job_final_example :
    ((remove_job table 1).1 ≡ RetCode.ok)
    × IsGone
        (with_download removed job)
        1
        (run (remove_job table 1).0 (starts true 1 ∷ adds info "/c.torrent" ∷ []))
remove_job_final_example =
    remove_job_final table 1 job (starts true 1 ∷ adds info "/c.torrent" ∷ [])
      run-no_jobs-IsValid_example lookup_one
