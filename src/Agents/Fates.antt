-- ===== src/Agents/Fates.antt =====
-- How a delivery leaves the run that it names, on the columns of the run.
use kaats_v.Base.{◌+◌, ◌*◌, ◌≡◌, ◌⊎◌, true, false, some, String}
use kaats_v.Schema.{AgentRun, AgentType, AgentRunStatus, other_agent}
use kaats_v.Agents.Worker.{Agent, Ending, Times}
use Prim.Native.String.{◌++◌ as str_append}

-- The columns that no delivery writes.
abbrev pub IsSameRun : AgentRun → AgentRun → Type 0
IsSameRun old new =
    (new.id ≡ old.id)
    × (new.company_id ≡ old.company_id)
    × (new.system_id ≡ old.system_id)
    × (new.agent_type ≡ old.agent_type)
    × (new.trigger_type ≡ old.trigger_type)
    × (new.triggered_by_user_id ≡ old.triggered_by_user_id)
    × (new.scheduled_job_id ≡ old.scheduled_job_id)
    × (new.input_config ≡ old.input_config)
    × (new.created_at ≡ old.created_at)

-- The summary, the tokens and the cost are those from before.
abbrev pub IsUnreported : AgentRun → AgentRun → Type 0
IsUnreported old new =
    (new.output_summary ≡ old.output_summary)
    × (new.prompt_tokens ≡ old.prompt_tokens)
    × (new.completion_tokens ≡ old.completion_tokens)
    × (new.total_cost_usd ≡ old.total_cost_usd)

-- The start, the end, the tokens that the model reported, and the cost in millionths of a dollar:
-- 5 for each token of a prompt and 15 for each token of a completion.
abbrev pub IsReported : Agent → Times → AgentRun → Type 0
IsReported a times new =
    (new.started_at ≡ some times.start)
    × (new.completed_at ≡ some times.finish)
    × (new.prompt_tokens ≡ a.prompt_tokens)
    × (new.completion_tokens ≡ a.completion_tokens)
    × (new.total_cost_usd ≡ some (a.prompt_tokens * 5 + a.completion_tokens * 15))

-- The agent type has a class.
abbrev pub HasClass : AgentType → Type 0
HasClass t = (t ≡ AgentType.crawl) ⊎ ((t ≡ AgentType.generation) ⊎ (t ≡ AgentType.execution))

-- What becomes of a pending run.
pub data Delivered (a : Agent) (times : Times) (t : AgentType) (old : AgentRun)
    : AgentRun → Type 0 where
  no_class :
      (text : String) (new : AgentRun)
      → t ≡ other_agent text
      → new.status ≡ AgentRunStatus.failed
      → new.error_message ≡ some (str_append "Unknown agent type: '" (str_append text "'"))
      → new.started_at ≡ old.started_at
      → new.completed_at ≡ some times.finish
      → IsUnreported old new
      → IsSameRun old new
      → Delivered a times t old new
  no_browser : HasClass t → a.ready ≡ false → Delivered a times t old old
  no_executor :
      (new : AgentRun)
      → HasClass t
      → a.ready ≡ true
      → a.built ≡ false
      → new.status ≡ AgentRunStatus.running
      → new.error_message ≡ old.error_message
      → new.started_at ≡ some times.start
      → new.completed_at ≡ old.completed_at
      → IsUnreported old new
      → IsSameRun old new
      → Delivered a times t old new
  finished :
      (summary : String) (new : AgentRun)
      → HasClass t
      → a.ready ≡ true
      → a.built ≡ true
      → a.ending ≡ Ending.finished summary
      → new.status ≡ AgentRunStatus.completed
      → new.output_summary ≡ some summary
      → new.error_message ≡ old.error_message
      → IsReported a times new
      → IsSameRun old new
      → Delivered a times t old new
  out_of_time :
      (new : AgentRun)
      → HasClass t
      → a.ready ≡ true
      → a.built ≡ true
      → a.ending ≡ Ending.out_of_time
      → new.status ≡ AgentRunStatus.timed_out
      → new.output_summary ≡ old.output_summary
      → new.error_message ≡ some "Wall-clock timeout exceeded"
      → IsReported a times new
      → IsSameRun old new
      → Delivered a times t old new
  crashed :
      (text : String) (new : AgentRun)
      → HasClass t
      → a.ready ≡ true
      → a.built ≡ true
      → a.ending ≡ Ending.crashed text
      → new.status ≡ AgentRunStatus.failed
      → new.output_summary ≡ old.output_summary
      → new.error_message ≡ some text
      → IsReported a times new
      → IsSameRun old new
      → Delivered a times t old new
