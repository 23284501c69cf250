-- ===== src/Scheduler.antt =====
-- Scheduled jobs: the dispatch of a job of backend/app/scheduler/job_dispatcher.py, and an
-- evaluation pass of backend/app/scheduler/evaluator.py. A pass runs in one transaction; an
-- exception of one job is caught, and what the job had written by then stays.
pub mod Dispatch
pub mod Endings
pub mod Windows
pub mod Failures
pub mod Jobs
pub mod Limit
use kaats_v.Base.{
  ℕ, zero, suc, ◌+◌, ◌-◌, ◌<◌, ◌≡◌, Bool, true, false, ◌&&◌, ◌||◌, not, Option, none, some, List,
  [], ◌∷◌, map, String, ltb, leb, ◌==◌, if◌then◌else◌, opt_is, is_some, or_else, select, any, get,
  update, replace, Result, ok, err, value_error, key_error, other_exception, Action, pure, raise,
  gets, or_raise, modify, ◌>>=◌, ◌>>◌,
}
use kaats_v.Schema.{
  Db, ScheduledJob, ScheduledJobRun, ScheduledJobRunStatus, LastRunStatus, ScheduleType, JobConfig,
  AgentRun, AgentType, other_agent, Requirement, TestScript, ExecutionRun, is_active_req,
  is_approved,
}
use kaats_v.Quota.{Platform}
use kaats_v.Agents.{RunOrder, dispatch_crawl, dispatch_generation, dispatch_execution}

-- What the scheduler takes from croniter and pytz: whether an expression is valid and fires no
-- more often than every 15 minutes, and the first point in time after a given one at which it
-- fires, or an exception.
pub record Cron : Type 0 where
  pub is_valid : String → Bool
  pub has_min_interval : String → Bool
  pub compute_next_run : String → String → ℕ → Option ℕ
  pub compute_next_run_after :
      (expression timezone : String) (after next : ℕ)
      → compute_next_run expression timezone after ≡ some next
      → after < next

abbrev pub is_one_shot : ScheduleType → Bool
is_one_shot ScheduleType.one_shot = true
is_one_shot ScheduleType.recurring = false

-- `next_run_at <= now`, which NULL does not fulfil.
abbrev pub reached : ℕ → Option ℕ → Bool
reached now none = false
reached now (some t) = leb t now

-- `last_run_at IS NULL OR last_run_at < next_run_at`
abbrev pub unfired : Option ℕ → Option ℕ → Bool
unfired none next = true
unfired (some last) none = false
unfired (some last) (some next) = ltb last next

unfoldable pub is_due : ℕ → ScheduledJob → Bool
is_due now job =
    job.is_active && (reached now job.next_run_at && unfired job.last_run_at job.next_run_at)

abbrev pub next_run : ScheduledJob → ℕ
next_run job = or_else job.next_run_at 0

abbrev pub insert : ScheduledJob → List ScheduledJob → List ScheduledJob
insert job [] = job ∷ []
insert job (x ∷ xs) = if leb (next_run job) (next_run x) then job ∷ x ∷ xs else x ∷ insert job xs

-- `order_by(next_run_at.asc())`
unfoldable pub by_next_run : List ScheduledJob → List ScheduledJob
by_next_run [] = []
by_next_run (x ∷ xs) = insert x (by_next_run xs)

-- `limit(n)`
unfoldable pub take : ℕ → List ScheduledJob → List ScheduledJob
take zero xs = []
take (suc n) [] = []
take (suc n) (x ∷ xs) = x ∷ take n xs

-- The query of a pass; `scheduler_max_jobs_per_cycle` is 100.
unfoldable pub due_jobs : ℕ → Db → List ScheduledJob
due_jobs now db = take 100 (by_next_run (select (is_due now) db.jobs))

-- Active requirements of the system that no approved script is for.
unfoldable pub active_requirements_without_scripts : ℕ → Db → List ℕ
active_requirements_without_scripts system_id db =
    map (λ (q : Requirement). q.id)
      (select
        (λ q.
          (q.system_id == system_id)
          && (is_active_req q.status
              && not (any (λ s. opt_is s.requirement_id q.id && is_approved s.status) db.scripts)))
        db.requirements)

-- Approved scripts of the system without an execution since the cutoff.
unfoldable pub approved_scripts_not_recently_run : ℕ → ℕ → Db → List ℕ
approved_scripts_not_recently_run cutoff system_id db =
    map (λ (s : TestScript). s.id)
      (select
        (λ s.
          (s.system_id == system_id)
          && (is_approved s.status
              && not (
                  any (λ (x : ExecutionRun). (x.test_script_id == s.id) && ltb cutoff x.created_at)
                    db.execution_runs)))
        db.scripts)

abbrev pub is_generation : AgentType → Bool
is_generation AgentType.generation = true
is_generation _ = false

abbrev pub is_execution : AgentType → Bool
is_execution AgentType.execution = true
is_execution _ = false

-- The two expansions for a job that has a system; a day is 86400 units of time.
unfoldable pub expand_config : ℕ → ScheduledJob → ℕ → Db → JobConfig
expand_config now job system_id db =
    let config = job.job_config in
    if is_generation job.agent_type && config.auto_generate
    then record config { requirement_ids = active_requirements_without_scripts system_id db }
    else if is_execution job.agent_type && config.auto_execute_approved
    then record config { script_ids = approved_scripts_not_recently_run (now - 86400) system_id db }
    else config

unfoldable pub resolve_config : ℕ → ScheduledJob → Db → JobConfig
resolve_config now job db = elim job.system_id [
  | none ↦ job.job_config
  | some system_id ↦ expand_config now job system_id db
]

abbrev pub order_of : ScheduledJob → RunOrder
order_of job = record {
  company_id = job.company_id;
  system_id = job.system_id;
  triggered_by_user_id = job.created_by;
  scheduled_job_id = some job.id;
}

-- `config.get("target_formats") or config.get("export_formats")`
abbrev pub formats_of : List String → List String → List String
formats_of [] export = export
formats_of (f ∷ fs) export = f ∷ fs

module _ (platform : Platform) where
  -- One run for each script; the last one is returned.
  unfoldable pub dispatch_scripts : ℕ → ScheduledJob → ℕ → List ℕ → Action Db AgentRun
  dispatch_scripts now job script_id [] = dispatch_execution platform now (order_of job) script_id
  dispatch_scripts now job script_id (next ∷ rest) = do
    run ← dispatch_execution platform now (order_of job) script_id
    dispatch_scripts now job next rest

  abbrev pub dispatch_scripts_of : ℕ → ScheduledJob → List ℕ → Option ℕ → Action Db AgentRun
  dispatch_scripts_of now job [] none = raise key_error
  dispatch_scripts_of now job [] (some script_id) =
      dispatch_execution platform now (order_of job) script_id
  dispatch_scripts_of now job (script_id ∷ rest) single = dispatch_scripts now job script_id rest

  unfoldable pub dispatch_for_type : ℕ → ScheduledJob → JobConfig → AgentType → Action Db AgentRun
  dispatch_for_type now job config AgentType.crawl =
      dispatch_crawl platform now (order_of job)
        (or_else config.target_url (or_else config.base_url "")) config.max_pages
  dispatch_for_type now job config AgentType.generation =
      dispatch_generation platform now (order_of job) config.requirement_ids
        (formats_of config.target_formats config.export_formats)
  dispatch_for_type now job config AgentType.execution =
      dispatch_scripts_of now job config.script_ids config.script_id
  dispatch_for_type now job config (other_agent text) = raise value_error

-- The ScheduledJobRun row added.
unfoldable pub add_job_run : ℕ → ScheduledJob → AgentRun → Action Db ScheduledJobRun
add_job_run now job agent_run db =
    let run : ScheduledJobRun = record {
      id = db.next_id;
      job_id = job.id;
      agent_run_id = some agent_run.id;
      status = ScheduledJobRunStatus.triggered;
      scheduled_for = now;
      completed_at = none;
    } in
    (ok run, record db { job_runs = run ∷ db.job_runs; next_id = db.next_id + 1 })

unfoldable pub put_job : ScheduledJob → Db → Db
put_job job db = record db { jobs = replace ScheduledJob.id job db.jobs }

-- The job marked as run; a one-shot job is switched off.
abbrev pub triggered_job : ℕ → ScheduledJob → ScheduledJob
triggered_job now job = record job {
  last_run_at = some now;
  last_run_status = some LastRunStatus.pending;
  is_active = job.is_active && not (is_one_shot job.schedule_type);
}

-- The failure counter of a pass, and the switch-off at the limit.
abbrev pub failed_job : ScheduledJob → ScheduledJob
failed_job job = record job {
  consecutive_failures = job.consecutive_failures + 1;
  is_active = job.is_active && not (leb job.max_failures (job.consecutive_failures + 1));
}

abbrev pub fail_job : ScheduledJob → Db → Db
fail_job job db = record db { jobs = update ScheduledJob.id job.id failed_job db.jobs }

abbrev pub after_dispatch : ScheduledJob → Result ScheduledJobRun → Db → Db
after_dispatch job (ok run) db = db
after_dispatch job (err e) db = fail_job job db

module _ (platform : Platform) (cron : Cron) where
  -- The next point in time of a recurring job.
  unfoldable pub reschedule : ℕ → ScheduledJob → ScheduleType → Action Db (Unit {0})
  reschedule now job ScheduleType.one_shot = pure tt
  reschedule now job ScheduleType.recurring = do
    next ←
        or_raise (cron.compute_next_run (or_else job.cron_expression "0 0 * * *") job.timezone now)
          other_exception
    modify (put_job (record job { next_run_at = some next }))

  unfoldable pub dispatch_scheduled_job : ℕ → ScheduledJob → Action Db ScheduledJobRun
  dispatch_scheduled_job now job = do
    config ← gets (resolve_config now job)
    agent_run ← dispatch_for_type platform now job config job.agent_type
    run ← add_job_run now job agent_run
    modify (put_job (triggered_job now job))
    reschedule now (triggered_job now job) job.schedule_type
    pure run

  -- One round of the loop of a pass.
  unfoldable pub run_job : ℕ → ScheduledJob → Db → Db
  run_job now job db = let (r, db') = dispatch_scheduled_job now job db in after_dispatch job r db'

  unfoldable pub run_each : ℕ → List ScheduledJob → Db → Db
  run_each now [] db = db
  run_each now (job ∷ jobs) db = run_each now jobs (run_job now job db)

  unfoldable pub run_once : ℕ → Db → Db
  run_once now db = run_each now (due_jobs now db) db
