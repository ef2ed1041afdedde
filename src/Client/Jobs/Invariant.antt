-- ===== src/Client/Jobs/Invariant.antt =====
-- What holds of the table of jobs after any history of calls.
use cool_down.Prelude.{
  ℕ, ◌<◌, ◌≡◌, none, List, [], ◌∷◌, Bool, false, arith, ◌⊎◌, inl, inr, Option-cases, nat_key,
  nat_beq_iff, String, ◌≢◌,
}
use cool_down.Prelude.Map.{lookup, lookup-insert, lookup-erase}
use cool_down.Client.JobInfo.{DownloadInfo, JobInfo}
use cool_down.Client.Jobs.{
  Jobs, no_jobs, get_job, change, stop_job, pause_job, resume_job, launch, start_job, remove_job,
  add_new_job, Call, starts, stops, pauses, resumes, removes, adds, step, run, with_download,
  stopped, paused, resumed, removed,
}

-- At the handle: it is below the counter if it has ever been given out, its job stands in one table
-- at most, and a job in the first table has a torrent path.
pub record IsSound (c : Jobs) (h : ℕ) : Type 0 where
  pub fresh : (h < c.job_index) ⊎ ((lookup h c.jobs ≡ none) × (lookup h c.removed_jobs ≡ none))
  pub apart : (lookup h c.jobs ≡ none) ⊎ (lookup h c.removed_jobs ≡ none)
  pub path : (lookup h c.jobs ≡ none) ⊎ (lookup h c.torrent_path_map ≢ none)

change-IsSound :
    (f : DownloadInfo → DownloadInfo) (c : Jobs) (k h : ℕ)
    → IsSound c k
    → IsSound c h
    → IsSound (change f c k).0 h
unfolding change get_job
change-IsSound f c k h s t = elim (Option-cases (lookup k c.jobs)) [
  | inl e ↦ rw (e, change, get_job) t
  | inr (job, e) ↦
      rw (e, change, get_job)
        (ground (arith, lookup-insert k h (with_download f job) c.jobs, nat_beq_iff h k))
]

launch-IsSound :
    (thread : Bool) (c : Jobs) (k h : ℕ) → IsSound c h → IsSound (launch thread c k).0 h
unfolding launch get_job
launch-IsSound thread c k h t = ground arith

start_job-IsSound :
    (thread : Bool) (c : Jobs) (k h : ℕ)
    → IsSound c k
    → IsSound c h
    → IsSound (start_job thread c k).0 h
unfolding start_job
start_job-IsSound thread c k h s t =
    ground (arith, change-IsSound resumed c k h s t, launch-IsSound thread (resume_job c k).0 k h)

remove_job-IsSound : (c : Jobs) (k h : ℕ) → IsSound c k → IsSound c h → IsSound (remove_job c k).0 h
unfolding remove_job get_job
remove_job-IsSound c k h s t = elim (Option-cases (lookup k c.jobs)) [
  | inl e ↦ rw (e, remove_job, get_job) t
  | inr (job, e) ↦
      rw (e, remove_job, get_job)
        (ground (
          arith,
          lookup-erase k h c.jobs,
          lookup-insert k h (with_download removed job) c.removed_jobs,
          nat_beq_iff h k,
        ))
]

add_new_job-IsSound :
    (c : Jobs) (info : JobInfo) (path : String) (h : ℕ)
    → IsSound c c.job_index
    → IsSound c h
    → IsSound (add_new_job c info path).0 h
unfolding add_new_job
add_new_job-IsSound c info path h s t = ground (
  arith,
  lookup-insert c.job_index h (record { info = info; is_running = false }) c.jobs,
  lookup-insert c.job_index h path c.torrent_path_map,
  nat_beq_iff h c.job_index,
)

-- The handles are sound, all of them.
abbrev pub IsValid : Jobs → Type 0
IsValid c = (h : ℕ) → IsSound c h

pub step-IsValid : (c : Jobs) (k : Call) → IsValid c → IsValid (step c k)
unfolding step stop_job pause_job resume_job
step-IsValid c (starts thread k) v h = start_job-IsSound thread c k h (v k) (v h)
step-IsValid c (stops k) v h = change-IsSound stopped c k h (v k) (v h)
step-IsValid c (pauses k) v h = change-IsSound paused c k h (v k) (v h)
step-IsValid c (resumes k) v h = change-IsSound resumed c k h (v k) (v h)
step-IsValid c (removes k) v h = remove_job-IsSound c k h (v k) (v h)
step-IsValid c (adds info path) v h = add_new_job-IsSound c info path h (v c.job_index) (v h)

run-IsValid : (c : Jobs) (ks : List Call) → IsValid c → IsValid (run c ks)
unfolding run
run-IsValid c [] v = v
run-IsValid c (k ∷ ks) v = run-IsValid (step c k) ks (step-IsValid c k v)

no_jobs-IsValid : IsValid no_jobs
unfolding lookup
no_jobs-IsValid h = ground arith

-- After any history of calls that starts with no job: a handle that the counter has not reached is
-- in neither table, so `AddNewJob` never gives a handle twice; no handle is in both tables; and each
-- job in the table has a torrent path, which is the assertion of `SaveJobHistory`.
pub run-no_jobs-IsValid : (ks : List Call) → IsValid (run no_jobs ks)
run-no_jobs-IsValid ks = run-IsValid no_jobs ks no_jobs-IsValid
