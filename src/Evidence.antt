-- ===== src/Evidence.antt =====
-- The records of an execution: the tools of the execution agent that write them, of
-- backend/app/agents/tool_registry.py, and the totals of backend/app/agents/execution_agent.py.
pub mod Totals
use kaats_v.Base.{
  ℕ, ◌+◌, Bool, true, false, ◌&&◌, ◌||◌, Option, none, some, List, [], ◌∷◌, String, ltb, ◌==◌,
  if◌then◌else◌, select, count, length, get, replace,
}
use kaats_v.Schema.{Db, ExecutionRun, ExecutionStatus, ExecutionStepResult, StepOutcome}

-- Python's `int`, a number from 0 on or a negative one.
pub data ℤ : Type 0 where
  pos : ℕ → ℤ
  negsuc : ℕ → ℤ

-- `max(0, n)`
abbrev pub at_least_zero : ℤ → ℕ
at_least_zero (pos n) = n
at_least_zero (negsuc n) = 0

-- The session, and what the tools keep in the working memory: the lists under the keys
-- `execution_run_ids` and `saved_step_result_ids`, and the runs under `run_id_for_script_...`, the
-- latest first.
pub record State : Type 0 where
  pub db : Db
  pub execution_run_ids : List ℕ
  pub saved_step_result_ids : List ℕ
  pub run_id_for_script : List (ℕ × ℕ)

pub record Summary : Type 0 where
  pub status : ExecutionStatus
  pub total_steps : ℕ
  pub passed_steps : ℕ
  pub failed_steps : ℕ
  pub blocked_steps : ℕ

-- What a tool answers to the agent.
pub data Reply : Type 0 where
  invalid_id run_not_found : Reply
  run_created : ℕ → Reply
  step_saved : ℕ → Reply
  finalized : Summary → Reply

-- The run and the company of the agent, and the clock.
pub record Context : Type 0 where
  pub agent_run_id : ℕ
  pub company_id : ℕ
  pub now : ℕ

abbrev pub new_execution_run : ℕ → Context → ℕ → ExecutionRun
new_execution_run id ctx script_id = record {
  id = id;
  agent_run_id = ctx.agent_run_id;
  test_script_id = script_id;
  company_id = ctx.company_id;
  status = ExecutionStatus.running;
  total_steps = 0;
  passed_steps = 0;
  failed_steps = 0;
  completed_at = none;
  created_at = ctx.now;
}

abbrev pub snoc : List ℕ → ℕ → List ℕ
snoc [] y = y ∷ []
snoc (x ∷ xs) y = x ∷ snoc xs y

-- `none` is a text that `UUID` refuses.
unfoldable pub create_execution_run : Context → Option ℕ → State → Reply × State
create_execution_run ctx none s = (invalid_id, s)
create_execution_run ctx (some script_id) s =
    let db = s.db in
    (
      run_created db.next_id,
      record s {
        db = record db {
          execution_runs = new_execution_run db.next_id ctx script_id ∷ db.execution_runs;
          next_id = db.next_id + 1;
        };
        execution_run_ids = snoc s.execution_run_ids db.next_id;
        run_id_for_script = (script_id, db.next_id) ∷ s.run_id_for_script;
      },
    )

-- The arguments of `save_step_result`.
pub record StepReport : Type 0 where
  pub step_number : ℕ
  pub step_description : String
  pub action : String
  pub expected_result : String
  pub actual_result : String
  pub outcome : StepOutcome
  pub screenshot_url : Option String
  pub duration_ms : ℤ

-- `cut n text` is Python's `text[:n]`.
module _ (cut : ℕ → String → String) where
  abbrev pub cut_option : ℕ → Option String → Option String
  cut_option n none = none
  cut_option n (some s) = some (cut n s)

  abbrev pub new_step_result : ℕ → ℕ → StepReport → ExecutionStepResult
  new_step_result id run_id r = record {
    id = id;
    execution_run_id = run_id;
    step_number = r.step_number;
    step_description = cut 2000 r.step_description;
    action = cut 100 r.action;
    expected_result = cut 4000 r.expected_result;
    actual_result = cut 4000 r.actual_result;
    outcome = r.outcome;
    screenshot_blob_url = cut_option 2048 r.screenshot_url;
    duration_ms = at_least_zero r.duration_ms;
  }

  unfoldable pub save_step_result : Option ℕ → StepReport → State → Reply × State
  save_step_result none r s = (invalid_id, s)
  save_step_result (some run_id) r s =
      let db = s.db in
      (
        step_saved db.next_id,
        record s {
          db = record db {
            step_results = new_step_result db.next_id run_id r ∷ db.step_results;
            next_id = db.next_id + 1;
          };
          saved_step_result_ids = snoc s.saved_step_result_ids db.next_id;
        },
      )

abbrev pub is_passed : StepOutcome → Bool
is_passed StepOutcome.passed = true
is_passed _ = false

abbrev pub is_failed : StepOutcome → Bool
is_failed StepOutcome.failed = true
is_failed _ = false

abbrev pub is_blocked : StepOutcome → Bool
is_blocked StepOutcome.blocked = true
is_blocked _ = false

unfoldable pub steps_of : ℕ → Db → List ExecutionStepResult
steps_of run_id db = select (λ x. x.execution_run_id == run_id) db.step_results

-- `sum(1 for s in steps if s.outcome == value)`
abbrev pub tally : (StepOutcome → Bool) → List ExecutionStepResult → ℕ
tally p steps = count (λ x. p x.outcome) steps

abbrev pub overall : ℕ → ℕ → ℕ → ExecutionStatus
overall total failed blocked =
    if ltb 0 failed || (total == 0 || ltb 0 blocked)
    then ExecutionStatus.failed
    else ExecutionStatus.passed

abbrev pub summary_of : List ExecutionStepResult → Summary
summary_of steps = record {
  status = overall (length steps) (tally is_failed steps) (tally is_blocked steps);
  total_steps = length steps;
  passed_steps = tally is_passed steps;
  failed_steps = tally is_failed steps;
  blocked_steps = tally is_blocked steps;
}

abbrev pub with_summary : ℕ → Summary → ExecutionRun → ExecutionRun
with_summary now sum run = record run {
  status = sum.status;
  total_steps = sum.total_steps;
  passed_steps = sum.passed_steps;
  failed_steps = sum.failed_steps;
  completed_at = some now;
}

abbrev pub finalize_found : ℕ → Option ExecutionRun → State → Reply × State
finalize_found now none s = (run_not_found, s)
finalize_found now (some run) s =
    let db = s.db in
    let sum = summary_of (steps_of run.id db) in
    (
      finalized sum,
      record s {
        db = record db {
          execution_runs = replace ExecutionRun.id (with_summary now sum run) db.execution_runs;
        };
      },
    )

unfoldable pub finalize_execution_run : ℕ → Option ℕ → State → Reply × State
finalize_execution_run now none s = (invalid_id, s)
finalize_execution_run now (some run_id) s =
    finalize_found now (get ExecutionRun.id run_id s.db.execution_runs) s

pub record Outcomes : Type 0 where
  pub total_passed : ℕ
  pub total_failed : ℕ

abbrev pub plus_run : Option ExecutionRun → Outcomes → Outcomes
plus_run none o = o
plus_run (some run) o = record {
  total_passed = o.total_passed + run.passed_steps;
  total_failed = o.total_failed + run.failed_steps;
}

-- `_tally_outcomes`
unfoldable pub tally_outcomes : List ℕ → Db → Outcomes
tally_outcomes [] db = record { total_passed = 0; total_failed = 0 }
tally_outcomes (i ∷ is) db =
    plus_run (get ExecutionRun.id i db.execution_runs) (tally_outcomes is db)
