-- ===== src/Scheduler.antt =====
-- packages/obs-platform/src/obs_platform/workers/scheduler.py: jobs, when they are due, and how a run
-- is recorded. Times are seconds; the clock stands still within one tick and `now` is its reading.
pub mod Laws
use agent_lens_platform.Common.{
  ℕ, ◌+◌, ◌-◌, ◌/◌, String, Bool, true, false, not, ◌&&◌, Option, none, some, List, [], ◌∷◌, max,
  leb, if◌then◌else◌,
}

-- The jobs of `_build_jobs`.
pub data JobName : Type 0 where
  drift_monitor retention_purge dead_letter_watch : JobName

pub record Job : Type 0 where
  pub name : JobName
  pub interval_seconds : ℕ
  pub enabled : Bool
  pub catch_up : Bool

-- `Settings`, as far as the scheduler reads it
pub record Settings : Type 0 where
  pub drift_interval_seconds : ℕ
  pub drift_enabled : Bool
  pub retention_interval_seconds : ℕ
  pub retention_days : ℕ

unfoldable pub build_jobs : Settings → List Job
build_jobs s =
    record {
      name = drift_monitor;
      interval_seconds = s.drift_interval_seconds;
      enabled = s.drift_enabled;
      catch_up = true;
    }
    ∷ record {
      name = retention_purge;
      interval_seconds = s.retention_interval_seconds;
      enabled = leb 1 s.retention_days;
      catch_up = true;
    }
    ∷ record {
      name = dead_letter_watch;
      interval_seconds = max 300 (s.retention_interval_seconds / 4);
      enabled = true;
      catch_up = true;
    }
    ∷ []

-- How a run ended: `job.run()` returned, or it raised, with the text of the error.
pub data RunResult : Type 0 where
  finished : RunResult
  raised : String → RunResult

pub data RunStatus : Type 0 where
  ok error : RunStatus

-- A row of the `job_runs` table.
pub record JobRun : Type 0 where
  pub job_name : JobName
  pub last_started_at : ℕ
  pub last_finished_at : Option ℕ
  pub last_status : RunStatus
  pub last_error : Option String
  pub run_count : ℕ

-- `_is_due`, from the row of the job
unfoldable pub is_due : ℕ → Job → Option JobRun → Bool
is_due now job row = elim row [
  | none ↦ job.catch_up
  | some r ↦ elim r.last_finished_at [
    | none ↦ job.catch_up
    | some t ↦ leb job.interval_seconds (now - t)
  ]
]

abbrev pub runs_before : Option JobRun → ℕ
runs_before none = 0
runs_before (some r) = r.run_count

abbrev pub finished_before : Option JobRun → Option ℕ
finished_before none = none
finished_before (some r) = r.last_finished_at

-- The row that `_record` writes: only a run that returned moves `last_finished_at`.
unfoldable pub run_row : ℕ → ℕ → Job → RunResult → Option JobRun → JobRun
run_row started now job finished row = record {
  job_name = job.name;
  last_started_at = started;
  last_finished_at = some now;
  last_status = ok;
  last_error = none;
  run_count = runs_before row + 1;
}
run_row started now job (raised text) row = record {
  job_name = job.name;
  last_started_at = started;
  last_finished_at = finished_before row;
  last_status = error;
  last_error = some text;
  run_count = runs_before row + 1;
}

-- The fields of `Scheduler` that change, and the table of runs as a function of the job: `_record`
-- replaces the row of its job, all columns but the key.
pub record Scheduler : Type 0 where
  pub runs : ℕ
  pub failures : ℕ
  pub rows : JobName → Option JobRun

abbrev pub same_job : JobName → JobName → Bool
same_job drift_monitor drift_monitor = true
same_job retention_purge retention_purge = true
same_job dead_letter_watch dead_letter_watch = true
same_job _ _ = false

abbrev pub write_row : JobName → JobRun → (JobName → Option JobRun) → JobName → Option JobRun
write_row j r rows k = if same_job j k then some r else rows k

-- `_execute`, with the result of `job.run()`
unfoldable pub execute : ℕ → Job → RunResult → Scheduler → Scheduler
unfolding run_row
execute now job finished s = record s {
  runs = s.runs + 1;
  rows = write_row job.name (run_row now now job finished (s.rows job.name)) s.rows;
}
execute now job (raised text) s = record s {
  failures = s.failures + 1;
  rows = write_row job.name (run_row now now job (raised text) (s.rows job.name)) s.rows;
}

-- `tick`: `outcome` is what each job's run does, and `stopping` whether a stop was requested before
-- the job is reached. Returns the names that ran.
module _ (now : ℕ) (outcome : JobName → RunResult) (stopping : JobName → Bool) where
  abbrev pub runs_now : Job → Scheduler → Bool
  runs_now job s = job.enabled && not (stopping job.name) && is_due now job (s.rows job.name)

  unfoldable pub tick : List Job → Scheduler → List JobName × Scheduler
  unfolding is_due execute
  tick [] s = ([], s)
  tick (job ∷ jobs) s =
      let (ran, s') = tick jobs (execute now job (outcome job.name) s) in
      let skipped = tick jobs s in if runs_now job s then (job.name ∷ ran, s') else skipped
