-- ===== src/Scheduler/Failures.antt =====
-- How a job fails in a pass: with nothing to run, and without a next point in time.
use kaats_v.Base.{ℕ, ◌-◌, ◌≤◌, ◌≡◌, true, false, none, some, [], arith, get, err, key_error}
use kaats_v.Schema.{Db, ScheduledJob, AgentType}
use kaats_v.Quota.{Platform}
use kaats_v.Scheduler.{
  Cron, is_due, approved_scripts_not_recently_run, resolve_config, expand_config, dispatch_for_type,
  dispatch_scheduled_job, failed_job, run_job, triggered_job,
}
use kaats_v.Scheduler.Windows.{fail_job-get}

-- A job whose next point in time cannot be found once it has been dispatched: it is marked as
-- run at a time that its old next point in time does not exceed, so it is never due again, also
-- where it stays active.
pub unscheduled-never_due :
    (now next t : ℕ) (job : ScheduledJob)
    → job.next_run_at ≡ some next
    → next ≤ now
    → is_due t (failed_job (triggered_job now job)) ≡ false
unfolding is_due
unscheduled-never_due now next t job e h = ground arith

module _ (platform : Platform) (cron : Cron) where
  -- An execution job that picks approved scripts itself, when all of them have been run within the
  -- day: the dispatch raises KeyError, so the pass counts a failure, and runs nothing.
  pub run_job-nothing_to_run :
      (now system_id : ℕ) (job : ScheduledJob) (db : Db)
      → get ScheduledJob.id job.id db.jobs ≡ some job
      → job.agent_type ≡ AgentType.execution
      → job.system_id ≡ some system_id
      → job.job_config.auto_execute_approved ≡ true
      → job.job_config.script_id ≡ none
      → approved_scripts_not_recently_run (now - 86400) system_id db ≡ []
      → ((dispatch_scheduled_job platform cron now job db).0 ≡ err key_error)
        × (get ScheduledJob.id job.id (run_job platform cron now job db).jobs
            ≡ some (failed_job job))
        × ((run_job platform cron now job db).agent_runs ≡ db.agent_runs)
  unfolding run_job dispatch_scheduled_job dispatch_for_type resolve_config expand_config
  run_job-nothing_to_run now system_id job db h t s a n none_left =
      let failed = fail_job-get platform cron job job db h in
      (ground arith, ground arith, ground arith)
