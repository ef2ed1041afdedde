-- ===== src/Client/Jobs/Control.antt =====
-- What each call does to the job that it names and to the others, on every branch.
use cool_down.Prelude.{
  ℕ, ◌≡◌, none, some, List, [], ◌∷◌, Bool, true, false, arith, inl, inr, Option-cases, nat_key,
  nat_beq_iff, if◌then◌else◌, ◌==◌, ◌&&◌, not,
}
use cool_down.Prelude.Map.{lookup, insert, lookup-insert, lookup-erase, beq_refl}
use cool_down.Outcome.{Outcome, done, throw, exception}
use cool_down.ErrorCode.{RetCode}
use cool_down.Client.JobInfo.{DownloadInfo}
use cool_down.Client.Jobs.{
  Job, Jobs, get_job, change, stop_job, pause_job, resume_job, launch, start_job, remove_job,
  add_new_job, with_download, stopped, paused, resumed, removed, Call, starts, stops, pauses,
  resumes, removes, adds, step, run,
}
use cool_down.Client.Jobs.Invariant.{IsValid, IsSound, step-IsValid}

-- How a start ends for a job that is found.
abbrev pub start_result : Bool → Bool → Outcome RetCode
start_result true thread = done RetCode.job_already_started
start_result false true = done RetCode.ok
start_result false false = throw exception

-- `StartJob` on a handle that has a job takes back its stop and its pause, also when it then fails, and
-- touches no other job; the job goes to the thread pool exactly when it is not running and the pool
-- has a thread, and the result says which case it was.
pub start_job_lem :
    (thread : Bool) (c : Jobs) (h : ℕ) (job : Job)
    → lookup h c.jobs ≡ some job
    → let (c', ret) = start_job thread c h in
      (ret ≡ start_result job.is_running thread)
      × (c'.started ≡ (if not job.is_running && thread then h ∷ c.started else c.started))
      × ((j : ℕ)
          → lookup j c'.jobs
            ≡ (if j == h then some (with_download resumed job) else lookup j c.jobs))
unfolding start_job resume_job change get_job launch
start_job_lem thread c h job e =
    let found : lookup h (insert h (with_download resumed job) c.jobs)
        ≡ some (with_download resumed job) =
      rw (lookup-insert h h (with_download resumed job) c.jobs, beq_refl h) in
    rw (e, start_job, resume_job, change, get_job)
      (rw (found, launch, get_job)
        (
          ground arith,
          ground arith,
          λ j. ground (arith, lookup-insert h j (with_download resumed job) c.jobs),
        ))

-- A job that has been removed is held in the second table, and by no call in the first one again.
abbrev pub IsGone : Job → ℕ → Jobs → Type 0
IsGone job h c = (lookup h c.removed_jobs ≡ some job) × (lookup h c.jobs ≡ none)

change-IsGone :
    (f : DownloadInfo → DownloadInfo) (c : Jobs) (k h : ℕ) (job : Job)
    → IsGone job h c
    → IsGone job h (change f c k).0
unfolding change get_job
change-IsGone f c k h job g = elim (Option-cases (lookup k c.jobs)) [
  | inl e ↦ rw (e, change, get_job) g
  | inr (other, e) ↦
      rw (e, change, get_job)
        (ground (arith, lookup-insert k h (with_download f other) c.jobs, nat_beq_iff h k))
]

launch-IsGone :
    (thread : Bool) (c : Jobs) (k h : ℕ) (job : Job)
    → IsGone job h c
    → IsGone job h (launch thread c k).0
unfolding launch get_job
launch-IsGone thread c k h job g = ground arith

start_job-IsGone :
    (thread : Bool) (c : Jobs) (k h : ℕ) (job : Job)
    → IsGone job h c
    → IsGone job h (start_job thread c k).0
unfolding start_job resume_job
start_job-IsGone thread c k h job g =
    ground (
      arith,
      change-IsGone resumed c k h job g,
      launch-IsGone thread (change resumed c k).0 k h job,
    )

remove_job-IsGone :
    (c : Jobs) (k h : ℕ) (job : Job) → IsGone job h c → IsGone job h (remove_job c k).0
unfolding remove_job get_job
remove_job-IsGone c k h job g = elim (Option-cases (lookup k c.jobs)) [
  | inl e ↦ rw (e, remove_job, get_job) g
  | inr (other, e) ↦
      rw (e, remove_job, get_job)
        (ground (
          arith,
          lookup-erase k h c.jobs,
          lookup-insert k h (with_download removed other) c.removed_jobs,
          nat_beq_iff h k,
        ))
]

step-IsGone :
    (c : Jobs) (k : Call) (h : ℕ) (job : Job)
    → IsSound c c.job_index
    → IsGone job h c
    → IsGone job h (step c k)
unfolding step stop_job pause_job resume_job add_new_job
step-IsGone c (starts thread k) h job s g = start_job-IsGone thread c k h job g
step-IsGone c (stops k) h job s g = change-IsGone stopped c k h job g
step-IsGone c (pauses k) h job s g = change-IsGone paused c k h job g
step-IsGone c (resumes k) h job s g = change-IsGone resumed c k h job g
step-IsGone c (removes k) h job s g = remove_job-IsGone c k h job g
step-IsGone c (adds info path) h job s g = ground (
  arith,
  lookup-insert c.job_index h (record { info = info; is_running = false }) c.jobs,
  nat_beq_iff h c.job_index,
)

run-IsGone :
    (c : Jobs) (ks : List Call) (h : ℕ) (job : Job)
    → IsValid c
    → IsGone job h c
    → IsGone job h (run c ks)
unfolding run
run-IsGone c [] h job v g = g
run-IsGone c (k ∷ ks) h job v g =
    run-IsGone (step c k) ks h job (step-IsValid c k v) (step-IsGone c k h job (v c.job_index) g)

-- In a valid table, `RemoveJob` on a handle that has a job succeeds, and marks the job removed; from
-- then on, after any further calls, the job stands with its mark in the table of removed jobs and no
-- job is found under its handle.
pub remove_job_final :
    (c : Jobs) (h : ℕ) (job : Job) (ks : List Call)
    → IsValid c
    → lookup h c.jobs ≡ some job
    → ((remove_job c h).1 ≡ RetCode.ok)
      × IsGone (with_download removed job) h (run (remove_job c h).0 ks)
unfolding remove_job get_job step
remove_job_final c h job ks v e = (
  rw (e, remove_job, get_job),
  run-IsGone (remove_job c h).0 ks h (with_download removed job) (step-IsValid c (removes h) v) (
      rw (e, remove_job, get_job)
        (
          rw (lookup-insert h h (with_download removed job) c.removed_jobs, beq_refl h),
          rw (lookup-erase h h c.jobs, beq_refl h),
        )),
)
