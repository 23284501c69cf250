-- ===== src/Schema/Agents.antt =====
-- Agent runs, token usage and scheduled jobs: models/agent_run.py, models/scheduled_job.py.
use kaats_v.Base.{ℕ, Bool, Option, String, List}
use kaats_v.Schema.Enums.{
  AgentRunStatus, AgentTriggerType, AgentType, ScheduleType, ScheduledJobRunStatus, LastRunStatus,
}

-- The `input_config` that AgentDispatcher builds, by the kind of run.
pub data InputConfig : Type 0 where
  crawl_config : String → Option ℕ → InputConfig
  generation_config : List ℕ → List String → InputConfig
  execution_config : ℕ → InputConfig
  legacy_config : Option ℕ → List ℕ → Option (List String) → InputConfig

-- Costs are in millionths of a dollar times 1, the scale of Numeric(10, 6).
pub record AgentRun : Type 0 where
  pub id : ℕ
  pub company_id : ℕ
  pub system_id : Option ℕ
  pub agent_type : AgentType
  pub status : AgentRunStatus
  pub trigger_type : AgentTriggerType
  pub triggered_by_user_id : Option ℕ
  pub scheduled_job_id : Option ℕ
  pub input_config : InputConfig
  pub output_summary : Option String
  pub prompt_tokens : ℕ
  pub completion_tokens : ℕ
  pub total_cost_usd : Option ℕ
  pub error_message : Option String
  pub started_at : Option ℕ
  pub completed_at : Option ℕ
  pub created_at : ℕ

pub record CompanyTokenUsage : Type 0 where
  pub id : ℕ
  pub company_id : ℕ
  pub agent_type : AgentType
  pub usage_date : ℕ
  pub prompt_tokens : ℕ
  pub completion_tokens : ℕ
  pub total_cost_usd : Option ℕ

-- `ScheduledJob.job_config`, a JSON object, by the keys that the code reads.
pub record JobConfig : Type 0 where
  pub target_url : Option String
  pub base_url : Option String
  pub max_pages : Option ℕ
  pub requirement_ids : List ℕ
  pub auto_generate : Bool
  pub target_formats : List String
  pub export_formats : List String
  pub script_ids : List ℕ
  pub script_id : Option ℕ
  pub auto_execute_approved : Bool

pub record ScheduledJob : Type 0 where
  pub id : ℕ
  pub company_id : ℕ
  pub system_id : Option ℕ
  pub created_by : Option ℕ
  pub name : String
  pub agent_type : AgentType
  pub schedule_type : ScheduleType
  pub cron_expression : Option String
  pub timezone : String
  pub run_at : Option ℕ
  pub job_config : JobConfig
  pub is_active : Bool
  pub max_failures : ℕ
  pub consecutive_failures : ℕ
  pub next_run_at : Option ℕ
  pub last_run_at : Option ℕ
  pub last_run_status : Option LastRunStatus

pub record ScheduledJobRun : Type 0 where
  pub id : ℕ
  pub job_id : ℕ
  pub agent_run_id : Option ℕ
  pub status : ScheduledJobRunStatus
  pub scheduled_for : ℕ
  pub completed_at : Option ℕ
