-- ===== src/Tests/Evidence.antt =====
-- An execution of a login script with two steps.
use kaats_v.Base.{ℕ, ◌+◌, ◌≤◌, ◌≡◌, ◌⊎◌, ◌↔◌, refl, some, none, [], ◌∷◌, All, get, length}
use kaats_v.Schema.{ExecutionRun, ExecutionStatus, ExecutionStepResult, StepOutcome}
use kaats_v.Evidence.{State, Summary, finalized, steps_of, finalize_execution_run}
use kaats_v.Evidence.Totals.{Allows, IsFinished, Tallied, finalize_execution_run-totals}
use kaats_v.Tests.Data.{one_script}

abbrev running : ExecutionRun
running = record {
  id = 90;
  agent_run_id = 50;
  test_script_id = 40;
  company_id = 20;
  status = ExecutionStatus.running;
  total_steps = 0;
  passed_steps = 0;
  failed_steps = 0;
  completed_at = none;
  created_at = 1;
}

abbrev opened : ExecutionStepResult
opened = record {
  id = 91;
  execution_run_id = 90;
  step_number = 1;
  step_description = "open the page";
  action = "navigate";
  expected_result = "the page shows";
  actual_result = "it did";
  outcome = StepOutcome.passed;
  screenshot_blob_url = none;
  duration_ms = 12;
}

abbrev logged_in : ExecutionStepResult
logged_in = record opened { id = 92; step_number = 2; outcome = StepOutcome.failed }

abbrev executed : State
executed = record {
  db = record one_script { execution_runs = running ∷ []; step_results = logged_in ∷ opened ∷ [] };
  execution_run_ids = 90 ∷ [];
  saved_step_result_ids = 91 ∷ 92 ∷ [];
  run_id_for_script = (40, 90) ∷ [];
}

finalize_execution_run-totals_example :
    let s' = (finalize_execution_run 60 (some 90) executed).1 in
    (sum : Summary) × (new : ExecutionRun) × ((finalize_execution_run 60 (some 90) executed).0
      ≡ finalized sum)
    × (get ExecutionRun.id 90 s'.db.execution_runs ≡ some new)
    × IsFinished 60 sum running new
    × ((◌≡◌ {A = ℕ} 90 91)
        ⊎ (get ExecutionRun.id 91 s'.db.execution_runs
            ≡ get ExecutionRun.id 91 executed.db.execution_runs))
    × (sum.total_steps ≡ length (steps_of 90 executed.db))
    × Tallied (steps_of 90 executed.db) sum.passed_steps sum.failed_steps sum.blocked_steps
    × (sum.passed_steps + sum.failed_steps + sum.blocked_steps ≤ sum.total_steps)
    × ((sum.status ≡ ExecutionStatus.passed) ⊎ (sum.status ≡ ExecutionStatus.failed))
    × ((sum.status ≡ ExecutionStatus.passed)
        ↔ ((1 ≤ length (steps_of 90 executed.db)) × All Allows (steps_of 90 executed.db)))
unfolding get
finalize_execution_run-totals_example = finalize_execution_run-totals 60 90 91 running executed refl
