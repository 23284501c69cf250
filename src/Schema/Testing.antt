-- ===== src/Schema/Testing.antt =====
-- Requirements, scripts, cycles and results: models/requirement.py, models/test_script.py,
-- models/test_cycle.py, models/test_result.py, models/execution_evidence.py.
use kaats_v.Base.{Bool, ℕ, Option, String, List}
use kaats_v.Schema.Enums.{
  RequirementStatus, TestScriptStatus, TestCycleStatus, TestAssignmentStatus, TestOutcome,
  ExecutionStatus, StepOutcome,
}

pub record Requirement : Type 0 where
  pub id : ℕ
  pub system_id : ℕ
  pub company_id : ℕ
  pub title : String
  pub description : String
  pub status : RequirementStatus
  pub business_domain : Option String
  pub priority : String
  pub source_type : String
  pub created_at : ℕ
  pub is_deleted : Bool
  pub deleted_at : Option ℕ

pub record TestScript : Type 0 where
  pub id : ℕ
  pub requirement_id : Option ℕ
  pub system_id : ℕ
  pub company_id : ℕ
  pub title : String
  pub description : Option String
  pub version : ℕ
  pub status : TestScriptStatus
  pub export_format : String
  pub script_content : Option String
  pub rendered_content : Option String
  pub approved_by : Option ℕ
  pub approved_at : Option ℕ
  pub business_domain : Option String
  pub tags : Option (List String)
  pub created_by : Option ℕ
  pub is_deleted : Bool
  pub deleted_at : Option ℕ

pub record TestScriptVersion : Type 0 where
  pub id : ℕ
  pub test_script_id : ℕ
  pub version : ℕ
  pub script_content : Option String
  pub rendered_content : Option String
  pub change_summary : String
  pub created_by : Option ℕ

pub record TestCase : Type 0 where
  pub id : ℕ
  pub script_id : ℕ
  pub name : String
  pub description : Option String
  pub stop_on_failure : Bool
  pub order_index : ℕ

-- `parameters` is JSON that no code reads.
pub record TestStep : Type 0 where
  pub id : ℕ
  pub case_id : ℕ
  pub step_number : ℕ
  pub action : String
  pub description : String
  pub expected_outcome : Option String
  pub parameters : Option String

-- The row of an execution by an agent.
pub record ExecutionRun : Type 0 where
  pub id : ℕ
  pub agent_run_id : ℕ
  pub test_script_id : ℕ
  pub company_id : ℕ
  pub status : ExecutionStatus
  pub total_steps : ℕ
  pub passed_steps : ℕ
  pub failed_steps : ℕ
  pub completed_at : Option ℕ
  pub created_at : ℕ

pub record ExecutionStepResult : Type 0 where
  pub id : ℕ
  pub execution_run_id : ℕ
  pub step_number : ℕ
  pub step_description : String
  pub action : String
  pub expected_result : String
  pub actual_result : String
  pub outcome : StepOutcome
  pub screenshot_blob_url : Option String
  pub duration_ms : ℕ

pub record TestCycle : Type 0 where
  pub id : ℕ
  pub system_id : ℕ
  pub company_id : ℕ
  pub name : String
  pub description : Option String
  pub status : TestCycleStatus
  pub planned_start : Option ℕ
  pub planned_end : Option ℕ
  pub actual_start : Option ℕ
  pub actual_end : Option ℕ
  pub lead_user_id : Option ℕ
  pub created_by : Option ℕ

pub record TestAssignment : Type 0 where
  pub id : ℕ
  pub test_cycle_id : ℕ
  pub test_script_id : ℕ
  pub assigned_to : ℕ
  pub assigned_by : ℕ
  pub due_date : Option ℕ
  pub status : TestAssignmentStatus

pub record TestResult : Type 0 where
  pub id : ℕ
  pub assignment_id : ℕ
  pub test_script_id : ℕ
  pub company_id : ℕ
  pub executed_by : ℕ
  pub outcome : TestOutcome
  pub actual_result : Option String
  pub notes : Option String
