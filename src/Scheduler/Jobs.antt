-- ===== src/Scheduler/Jobs.antt =====
-- The scheduled jobs of a system: SchedulerService of backend/app/services/scheduler_service.py.
use kaats_v.Base.{
  ℕ, ◌+◌, Bool, true, false, ◌&&◌, ◌||◌, not, Option, none, some, List, [], ◌∷◌, String, leb, ◌==◌,
  if◌then◌else◌, opt_is, is_none, is_some, or_else, or_keep, count, get, Result, ok, err, http,
  job_not_found, cron_required, cron_invalid, cron_too_frequent, run_at_required, run_at_past,
  too_many_jobs, url_required, requirements_required, scripts_required, other_exception, Action,
  pure, lift, gets, or_raise, modify, ◌>>=◌, ◌>>◌,
}
use kaats_v.Schema.{
  Db, ScheduledJob, ScheduledJobRun, ScheduleType, JobConfig, AgentType, other_agent,
}
use kaats_v.Quota.{Platform}
use kaats_v.Scheduler.{Cron, dispatch_scheduled_job, put_job}
use text.Mathlib.Text.{◌==◌ as str_eq}

pub record ScheduledJobCreate : Type 0 where
  pub name : String
  pub agent_type : AgentType
  pub schedule_type : ScheduleType
  pub cron_expression : Option String
  pub timezone : String
  pub run_at : Option ℕ
  pub job_config : JobConfig
  pub is_active : Bool
  pub max_failures : ℕ

pub record ScheduledJobUpdate : Type 0 where
  pub name : Option String
  pub cron_expression : Option String
  pub timezone : Option String
  pub run_at : Option ℕ
  pub job_config : Option JobConfig
  pub is_active : Option Bool
  pub max_failures : Option ℕ

-- `bool(text)` for a text that may be missing.
abbrev pub has_text : Option String → Bool
has_text none = false
has_text (some s) = not (str_eq s "")

abbrev pub is_empty : List ℕ → Bool
is_empty [] = true
is_empty (x ∷ xs) = false

unfoldable pub validate_job_config : AgentType → JobConfig → Result (Unit {0})
validate_job_config AgentType.crawl config =
    if has_text config.target_url then ok tt else err (http 422 url_required)
validate_job_config AgentType.generation config =
    if is_empty config.requirement_ids && not config.auto_generate
    then err (http 422 requirements_required)
    else ok tt
validate_job_config AgentType.execution config =
    if is_empty config.script_ids && (is_none config.script_id && not config.auto_execute_approved)
    then err (http 422 scripts_required)
    else ok tt
validate_job_config (other_agent text) config = ok tt

-- `_check_active_job_limit`; `_MAX_ACTIVE_JOBS_PER_SYSTEM` is 20.
abbrev pub is_active_job : ℕ → ℕ → ScheduledJob → Bool
is_active_job system_id company_id job =
    opt_is job.system_id system_id && ((job.company_id == company_id) && job.is_active)

unfoldable pub active_jobs : ℕ → ℕ → Db → ℕ
active_jobs system_id company_id db = count (is_active_job system_id company_id) db.jobs

unfoldable pub check_active_job_limit : ℕ → ℕ → Db → Result (Unit {0})
check_active_job_limit system_id company_id db =
    if leb 20 (active_jobs system_id company_id db) then err (http 422 too_many_jobs) else ok tt

unfoldable pub new_job : ℕ → ScheduledJobCreate → ℕ → ℕ → ℕ → Option ℕ → ScheduledJob
new_job id body system_id created_by company_id next_run_at = record {
  id = id;
  company_id = company_id;
  system_id = some system_id;
  created_by = some created_by;
  name = body.name;
  agent_type = body.agent_type;
  schedule_type = body.schedule_type;
  cron_expression = body.cron_expression;
  timezone = body.timezone;
  run_at = body.run_at;
  job_config = body.job_config;
  is_active = body.is_active;
  max_failures = body.max_failures;
  consecutive_failures = 0;
  next_run_at = next_run_at;
  last_run_at = none;
  last_run_status = none;
}

abbrev pub add_job : ScheduledJob → Action Db ScheduledJob
add_job job db = (ok job, record db { jobs = job ∷ db.jobs; next_id = db.next_id + 1 })

-- `_get_or_404`
abbrev pub of_system : ℕ → Option ScheduledJob → Option ScheduledJob
of_system system_id none = none
of_system system_id (some job) = if opt_is job.system_id system_id then some job else none

unfoldable pub get_or_404 : ℕ → ℕ → Action Db ScheduledJob
get_or_404 job_id system_id db =
    or_raise (of_system system_id (get ScheduledJob.id job_id db.jobs)) (http 404 job_not_found) db

unfoldable pub deactivate_scheduled_job : ℕ → ℕ → Action Db ScheduledJob
unfolding get_or_404
deactivate_scheduled_job job_id system_id = do
  job ← get_or_404 job_id system_id
  modify (put_job (record job { is_active = false }))
  pure (record job { is_active = false })

abbrev pub reschedules : ScheduledJobUpdate → Bool
reschedules body = is_some body.cron_expression || (is_some body.timezone || is_some body.run_at)

abbrev pub validate_update : ScheduledJob → Option JobConfig → Result (Unit {0})
validate_update job none = ok tt
validate_update job (some config) = validate_job_config job.agent_type config

unfoldable pub apply_job_update : ScheduledJobUpdate → Option ℕ → ScheduledJob → ScheduledJob
apply_job_update body next job = record job {
  name = or_else body.name job.name;
  cron_expression = or_keep body.cron_expression job.cron_expression;
  timezone = or_else body.timezone job.timezone;
  run_at = or_keep body.run_at job.run_at;
  job_config = or_else body.job_config job.job_config;
  is_active = or_else body.is_active job.is_active;
  max_failures = or_else body.max_failures job.max_failures;
  next_run_at = next;
}

module _ (cron : Cron) where
  abbrev pub validate_cron : String → Result (Unit {0})
  validate_cron expression =
      if str_eq expression ""
      then err (http 422 cron_required)
      else if not (cron.is_valid expression)
      then err (http 422 cron_invalid)
      else if not (cron.has_min_interval expression)
      then err (http 422 cron_too_frequent)
      else ok tt

  unfoldable pub validate_schedule : ℕ → ScheduleType → Option String → Option ℕ → Result (Unit {0})
  validate_schedule now ScheduleType.recurring none run_at = err (http 422 cron_required)
  validate_schedule now ScheduleType.recurring (some expression) run_at = validate_cron expression
  validate_schedule now ScheduleType.one_shot expression none = err (http 422 run_at_required)
  validate_schedule now ScheduleType.one_shot expression (some t) =
      if leb t now then err (http 422 run_at_past) else ok tt

  -- `compute_next_run`, which raises where there is no next point in time.
  abbrev pub next_or_raise : Option ℕ → Result (Option ℕ)
  next_or_raise none = err other_exception
  next_or_raise (some t) = ok (some t)

  -- `_calculate_next_run`
  unfoldable pub calculate_next_run :
      ℕ → ScheduleType → Option String → Option ℕ → String → Result (Option ℕ)
  calculate_next_run now ScheduleType.recurring none run_at timezone = ok none
  calculate_next_run now ScheduleType.recurring (some expression) run_at timezone =
      if str_eq expression ""
      then ok none
      else next_or_raise (cron.compute_next_run expression timezone now)
  calculate_next_run now ScheduleType.one_shot expression run_at timezone = ok run_at

  unfoldable pub create_scheduled_job : ℕ → ScheduledJobCreate → ℕ → ℕ → ℕ → Action Db ScheduledJob
  unfolding new_job
  create_scheduled_job now body system_id created_by company_id = do
    lift (validate_schedule now body.schedule_type body.cron_expression body.run_at)
    lift (validate_job_config body.agent_type body.job_config)
    allowed ← gets (check_active_job_limit system_id company_id)
    lift allowed
    next ←
        lift
          (calculate_next_run now body.schedule_type body.cron_expression body.run_at body.timezone)
    id ← gets (λ (db : Db). db.next_id)
    add_job (new_job id body system_id created_by company_id next)

  -- The new `next_run_at`, where the update touches the schedule.
  unfoldable pub updated_next_run : ℕ → ScheduledJobUpdate → ScheduledJob → Result (Option ℕ)
  updated_next_run now body job =
      let expression = or_keep body.cron_expression job.cron_expression in
      let run_at = or_keep body.run_at job.run_at in
      elim (validate_schedule now job.schedule_type expression run_at) [
        | ok u ↦
            calculate_next_run now job.schedule_type expression run_at
              (or_else body.timezone job.timezone)
        | err e ↦ err e
      ]

  unfoldable pub update_scheduled_job : ℕ → ℕ → ℕ → ScheduledJobUpdate → Action Db ScheduledJob
  unfolding get_or_404
  update_scheduled_job now job_id system_id body = do
    job ← get_or_404 job_id system_id
    next ← lift (if reschedules body then updated_next_run now body job else ok job.next_run_at)
    lift (validate_update job body.job_config)
    modify (put_job (apply_job_update body next job))
    pure (apply_job_update body next job)

  unfoldable pub trigger_now : Platform → ℕ → ℕ → ℕ → Action Db ScheduledJobRun
  unfolding get_or_404
  trigger_now platform now job_id system_id = do
    job ← get_or_404 job_id system_id
    dispatch_scheduled_job platform cron now job
