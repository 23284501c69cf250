-- ===== src/Scheduler/Endings.antt =====
-- How the dispatch of a job ends, on the columns of its row.
use kaats_v.Base.{
  ℕ, ◌≡◌, false, Option, none, some, List, ◌∷◌, ok, err, Result, Error, other_exception, or_else,
}
use kaats_v.Schema.{Db, ScheduledJob, ScheduledJobRun, ScheduleType, LastRunStatus}
use kaats_v.Quota.{Platform}
use kaats_v.Scheduler.{Cron, resolve_config}
use kaats_v.Scheduler.Dispatch.{NothingToRun, IsTriggered}

-- The row has a run at the time, with its outcome pending, and all else but the switch and the next
-- point in time as before.
abbrev pub IsMarked : ℕ → ScheduledJob → ScheduledJob → Type 0
IsMarked now old new =
    (new.last_run_at ≡ some now)
    × (new.last_run_status ≡ some LastRunStatus.pending)
    × (new.id ≡ old.id)
    × (new.company_id ≡ old.company_id)
    × (new.system_id ≡ old.system_id)
    × (new.created_by ≡ old.created_by)
    × (new.name ≡ old.name)
    × (new.agent_type ≡ old.agent_type)
    × (new.schedule_type ≡ old.schedule_type)
    × (new.cron_expression ≡ old.cron_expression)
    × (new.timezone ≡ old.timezone)
    × (new.run_at ≡ old.run_at)
    × (new.job_config ≡ old.job_config)
    × (new.max_failures ≡ old.max_failures)
    × (new.consecutive_failures ≡ old.consecutive_failures)

module _ (platform : Platform) (cron : Cron) where
  -- The next point in time after this one that the job's expression names, midnight's if it has
  -- none, or `none` where none can be found.
  abbrev pub next_time : ℕ → ScheduledJob → Option ℕ
  next_time now job =
      cron.compute_next_run (or_else job.cron_expression "0 0 * * *") job.timezone now

  -- How a dispatch of a stored job ends: its result, and then the row of the job and the table of
  -- the runs of jobs.
  pub data Ended (now : ℕ) (job : ScheduledJob) (db : Db)
      : Result ScheduledJobRun → Option ScheduledJob → List ScheduledJobRun → Type 0 where
    once :
        (run : ScheduledJobRun) (new : ScheduledJob) (runs : List ScheduledJobRun)
        → job.schedule_type ≡ ScheduleType.one_shot
        → IsTriggered now job run
        → IsMarked now job new
        → new.is_active ≡ false
        → new.next_run_at ≡ job.next_run_at
        → Ended now job db (ok run) (some new) (run ∷ runs)
    again :
        (run : ScheduledJobRun) (new : ScheduledJob) (runs : List ScheduledJobRun) (next : ℕ)
        → job.schedule_type ≡ ScheduleType.recurring
        → next_time now job ≡ some next
        → IsTriggered now job run
        → IsMarked now job new
        → new.is_active ≡ job.is_active
        → new.next_run_at ≡ some next
        → Ended now job db (ok run) (some new) (run ∷ runs)
    refused :
        (e : Error) (runs : List ScheduledJobRun)
        → NothingToRun job (resolve_config now job db)
        → Ended now job db (err e) (some job) runs
    unscheduled :
        (new : ScheduledJob) (runs : List ScheduledJobRun)
        → job.schedule_type ≡ ScheduleType.recurring
        → next_time now job ≡ none
        → IsMarked now job new
        → new.is_active ≡ job.is_active
        → new.next_run_at ≡ job.next_run_at
        → Ended now job db (err other_exception) (some new) runs
