-- ===== src/Tests/Cycles.antt =====
-- A test cycle with one assignment.
use kaats_v.Base.{◌≡◌, ◌⊎◌, refl, none, some, [], ◌∷◌, get, first}
use kaats_v.Schema.{
  Db, TestCycle, TestCycleStatus, TestAssignment, TestScriptStatus, UserRole, validation_tester,
}
use kaats_v.Cycles.{
  TestAssignmentCreate, new_assignment, load_cycle, usable_script, tester_role, assign_one,
  assign_each, bulk_assign,
}
use kaats_v.Cycles.Assignments.{Made, stored_after, bulk_assign-IsValid}
use kaats_v.Cycles.Results.{ResultBody}
use kaats_v.Cycles.Execution.{Dispatched}
use kaats_v.Tests.Data.{one_script, login_script, a_role}

abbrev sprint : TestCycle
sprint = record {
  id = 80;
  system_id = 30;
  company_id = 20;
  name = "sprint";
  description = none;
  status = TestCycleStatus.planned;
  planned_start = none;
  planned_end = none;
  actual_start = none;
  actual_end = none;
  lead_user_id = none;
  created_by = some 2;
}

abbrev item : TestAssignmentCreate
item = record { test_script_id = 40; assigned_to = 3; due_date = none }

abbrev login_test : TestAssignment
login_test = new_assignment 81 80 2 item

abbrev tester : UserRole
tester = a_role 14 3 validation_tester 20 none

abbrev assigned : Db
assigned = record one_script {
  scripts = record login_script { status = TestScriptStatus.approved } ∷ [];
  user_roles = tester ∷ [];
  cycles = sprint ∷ [];
  assignments = login_test ∷ [];
}

bulk_assign-IsValid_example :
    ((cycle : TestCycle) × (get TestCycle.id 80 assigned.cycles ≡ some cycle)
      × ((cycle.status ≡ TestCycleStatus.planned) ⊎ (cycle.status ≡ TestCycleStatus.in_progress)))
    × Made 80 2 assigned (item ∷ []) (new_assignment 100 80 2 item ∷ [])
    × ((bulk_assign 80 (item ∷ []) 2 assigned).1.assignments
        ≡ stored_after (new_assignment 100 80 2 item ∷ []) assigned.assignments)
unfolding bulk_assign load_cycle assign_each assign_one usable_script tester_role get first
bulk_assign-IsValid_example =
    bulk_assign-IsValid 80 2 (item ∷ []) (new_assignment 100 80 2 item ∷ []) assigned refl

abbrev body : ResultBody
body = record { actual_result = none; notes = none; executed_by = 3; company_id = 20 }

abbrev run_entry : Dispatched
run_entry = record { script_id = 40; agent_run_id = 100 }
