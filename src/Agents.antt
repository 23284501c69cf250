-- ===== src/Agents.antt =====
-- Agent runs: AgentDispatcher of backend/app/services/agent_dispatcher.py, which creates a run and
-- publishes its message, and AgentRunService of backend/app/services/agent_run_service.py. The
-- message goes to the bus; a failure to publish is caught by the dispatcher and changes no row.
pub mod Worker
pub mod Admission
pub mod Delivery
pub mod Fates
pub mod Metering
pub mod Accounting
use kaats_v.Base.{
  ℕ, ◌+◌, Bool, true, false, ◌||◌, not, Option, none, some, List, [], ◌∷◌, String, get, replace,
  Result, ok, http, other_exception, run_not_found, not_cancellable, Action, pure, lift, gets,
  or_raise, raise_if, modify, ◌>>=◌, ◌>>◌,
}
use kaats_v.Schema.{
  Db, AgentRun, AgentType, AgentRunStatus, AgentTriggerType, InputConfig, crawl_config,
  generation_config, execution_config, legacy_config,
}
use kaats_v.Quota.{Platform, assert_agent_run_allowed}

-- What a caller says of a run: who it is for, who or which job triggered it.
pub record RunOrder : Type 0 where
  pub company_id : ℕ
  pub system_id : Option ℕ
  pub triggered_by_user_id : Option ℕ
  pub scheduled_job_id : Option ℕ

abbrev pub trigger_type_of : Option ℕ → AgentTriggerType
trigger_type_of none = AgentTriggerType.manual
trigger_type_of (some job) = AgentTriggerType.scheduled

-- The new row of `_create_and_publish`, with the defaults of the columns that it leaves out.
unfoldable pub new_run : ℕ → ℕ → AgentType → RunOrder → InputConfig → AgentRun
new_run id now t order config = record {
  id = id;
  company_id = order.company_id;
  system_id = order.system_id;
  agent_type = t;
  status = AgentRunStatus.pending;
  trigger_type = trigger_type_of order.scheduled_job_id;
  triggered_by_user_id = order.triggered_by_user_id;
  scheduled_job_id = order.scheduled_job_id;
  input_config = config;
  output_summary = none;
  prompt_tokens = 0;
  completion_tokens = 0;
  total_cost_usd = none;
  error_message = none;
  started_at = none;
  completed_at = none;
  created_at = now;
}

-- The row added to the session and flushed.
abbrev pub add_run : AgentRun → Action Db AgentRun
add_run run db = (ok run, record db { agent_runs = run ∷ db.agent_runs; next_id = db.next_id + 1 })

-- `target_formats or ["playwright_python"]`, where None is the empty list.
abbrev pub formats_or_default : List String → List String
formats_or_default [] = "playwright_python" ∷ []
formats_or_default (f ∷ fs) = f ∷ fs

module _ (platform : Platform) where
  -- Only a run that no job triggers is checked.
  unfoldable pub quota_gate : ℕ → RunOrder → Db → Result (Unit {0})
  quota_gate now order db = elim order.scheduled_job_id [
    | none ↦ assert_agent_run_allowed platform now order.company_id db
    | some job ↦ ok tt
  ]

  unfoldable pub create_and_publish : ℕ → AgentType → RunOrder → InputConfig → Action Db AgentRun
  unfolding quota_gate new_run
  create_and_publish now t order config = do
    allowed ← gets (quota_gate now order)
    lift allowed
    id ← gets (λ (db : Db). db.next_id)
    add_run (new_run id now t order config)

  unfoldable pub dispatch_crawl : ℕ → RunOrder → String → Option ℕ → Action Db AgentRun
  dispatch_crawl now order base_url max_pages =
      create_and_publish now AgentType.crawl order (crawl_config base_url max_pages)

  unfoldable pub dispatch_generation : ℕ → RunOrder → List ℕ → List String → Action Db AgentRun
  dispatch_generation now order requirement_ids target_formats =
      create_and_publish now AgentType.generation order
        (generation_config requirement_ids (formats_or_default target_formats))

  unfoldable pub dispatch_execution : ℕ → RunOrder → ℕ → Action Db AgentRun
  dispatch_execution now order script_id =
      create_and_publish now AgentType.execution order (execution_config script_id)

-- The row that AgentRunService.trigger adds: manual, started and running.
abbrev pub triggered_run : ℕ → ℕ → AgentType → RunOrder → InputConfig → AgentRun
triggered_run id now t order config =
    record (new_run id now t (record order { scheduled_job_id = none }) config) {
      status = AgentRunStatus.running;
      started_at = some now;
    }

-- `trigger`, where `published` says whether the bus takes the message; a refusal is not caught.
unfoldable pub trigger : ℕ → AgentType → RunOrder → InputConfig → Bool → Action Db AgentRun
unfolding new_run
trigger now t order config published = do
  id ← gets (λ (db : Db). db.next_id)
  run ← add_run (triggered_run id now t order config)
  raise_if (not published) other_exception
  pure run

abbrev pub is_pending : AgentRunStatus → Bool
is_pending AgentRunStatus.pending = true
is_pending _ = false

abbrev pub is_running : AgentRunStatus → Bool
is_running AgentRunStatus.running = true
is_running _ = false

-- The attributes set on a loaded run, flushed.
unfoldable pub put_run : AgentRun → Db → Db
put_run run db = record db { agent_runs = replace AgentRun.id run db.agent_runs }

unfoldable pub cancel_run : ℕ → Action Db (Unit {0})
unfolding put_run
cancel_run run_id = do
  found ← gets (λ (db : Db). get AgentRun.id run_id db.agent_runs)
  run ← or_raise found (http 404 run_not_found)
  raise_if (not (is_pending run.status || is_running run.status)) (http 422 not_cancellable)
  modify (put_run (record run { status = AgentRunStatus.cancelled }))
