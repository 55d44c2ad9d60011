-- ===== src/Scheduler/Laws.antt =====
-- What a tick of packages/obs-platform/src/obs_platform/workers/scheduler.py does to the schedule.
use agent_lens_platform.Common.{
  ℕ, String, ◌+◌, ◌-◌, ◌≡◌, refl, Bool, true, Option, none, some, List, [], ◌∷◌, arith, length,
  Bool-cases, inl, inr, leb,
}
use agent_lens_platform.Scheduler.{
  JobName, Job, RunResult, finished, raised, JobRun, is_due, run_row, Scheduler, same_job, execute,
  tick, runs_now,
}

same_job_refl : (j : JobName) → same_job j j ≡ true
same_job_refl JobName.drift_monitor = refl
same_job_refl JobName.retention_purge = refl
same_job_refl JobName.dead_letter_watch = refl

after_failure :
    (now later : ℕ) (job : Job) (row : Option JobRun) (text : String)
    → is_due later job (some (run_row now now job (raised text) row)) ≡ is_due later job row
unfolding is_due run_row
after_failure now later job none text = refl
after_failure now later job (some r) text = refl

-- A run that raises leaves the schedule as it was: the job is due at any time exactly if it would
-- have been due then without the run.
pub failed_run_stays_due :
    (now later : ℕ) (job : Job) (s : Scheduler) (text : String)
    → is_due later job ((execute now job (raised text) s).rows job.name)
      ≡ is_due later job (s.rows job.name)
unfolding execute
failed_run_stays_due now later job s text =
    rw (same_job_refl job.name) (after_failure now later job (s.rows job.name) text)

-- After a run that returned, the job is due again exactly when its interval has passed.
pub finished_run_waits :
    (now later : ℕ) (job : Job) (s : Scheduler)
    → is_due later job ((execute now job finished s).rows job.name)
      ≡ leb job.interval_seconds (later - now)
unfolding execute is_due run_row
finished_run_waits now later job s = rw (same_job_refl job.name) refl

execute-counts :
    (now : ℕ) (job : Job) (r : RunResult) (s : Scheduler)
    → let s' = execute now job r s in s'.runs + s'.failures ≡ s.runs + s.failures + 1
unfolding execute
execute-counts now job finished s = omega arith
execute-counts now job (raised text) s = omega arith

module _ (now : ℕ) (outcome : JobName → RunResult) (stopping : JobName → Bool) where
  -- A tick counts every job that it ran once, as a run or as a failure, and no other: a job that
  -- raises does not stop the jobs after it.
  pub tick-counts :
      (jobs : List Job) (s : Scheduler)
      → let (ran, s') = tick now outcome stopping jobs s in
        s'.runs + s'.failures ≡ s.runs + s.failures + length ran
  unfolding tick
  tick-counts [] s = omega arith
  tick-counts (job ∷ jobs) s =
      let next = execute now job (outcome job.name) s in
      elim (Bool-cases (runs_now now outcome stopping job s)) [
        | inl run ↦
            rw (run, tick)
              (omega (arith, tick-counts jobs next, execute-counts now job (outcome job.name) s))
        | inr skip ↦ rw (skip, tick) (tick-counts jobs s)
      ]
