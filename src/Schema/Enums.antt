-- ===== src/Schema/Enums.antt =====
-- The enumerations of backend/app/models/enums.py, and the text columns that hold their values.
use kaats_v.Base.{Bool, true, false, String, Option, none, some}

pub data UserRoleEnum : Type 0 where
  global_admin enterprise_admin company_admin system_manager : UserRoleEnum
  validation_lead qa validation_tester bpo : UserRoleEnum

-- `UserRole.role` is a text column: a value of the enum, or any other text.
pub data RoleCode : Type 0 where
  role : UserRoleEnum → RoleCode
  other_role : String → RoleCode

-- `UserRoleEnum(text)`, where ValueError is `none`.
abbrev pub user_role_enum : RoleCode → Option UserRoleEnum
user_role_enum (role r) = some r
user_role_enum (other_role s) = none

pub data RequirementStatus : Type 0 where
  draft active deprecated : RequirementStatus

pub data TestScriptStatus : Type 0 where
  draft in_review approved deprecated : TestScriptStatus

pub data TestCycleStatus : Type 0 where
  planned in_progress completed aborted : TestCycleStatus

pub data TestAssignmentStatus : Type 0 where
  pending in_progress passed failed blocked skipped : TestAssignmentStatus

pub data TestOutcome : Type 0 where
  passed failed blocked skipped : TestOutcome

pub data ExecutionStatus : Type 0 where
  running passed failed errored : ExecutionStatus

-- A text column for StepOutcome: one of its values, or any other text that the agent passes.
pub data StepOutcome : Type 0 where
  passed failed blocked skipped error : StepOutcome
  other_outcome : String → StepOutcome

-- The column also takes `timed_out`, which BaseAgent.execute writes and AgentRunStatus lacks.
pub data AgentRunStatus : Type 0 where
  pending running completed failed cancelled timed_out : AgentRunStatus

pub data AgentTriggerType : Type 0 where
  manual scheduled : AgentTriggerType

-- A text column for AgentType: one of its values, or any other text.
pub data AgentType : Type 0 where
  crawl generation execution : AgentType
  other_agent : String → AgentType

pub data ScheduleType : Type 0 where
  one_shot recurring : ScheduleType

pub data ScheduledJobRunStatus : Type 0 where
  triggered completed failed : ScheduledJobRunStatus

pub data LastRunStatus : Type 0 where
  pending success failed : LastRunStatus

abbrev pub is_active_req : RequirementStatus → Bool
is_active_req RequirementStatus.active = true
is_active_req _ = false

abbrev pub is_approved : TestScriptStatus → Bool
is_approved TestScriptStatus.approved = true
is_approved _ = false
