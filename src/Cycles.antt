-- ===== src/Cycles.antt =====
-- Test cycles: TestCycleService of backend/app/services/test_cycle_service.py.
pub mod Progress
pub mod Assignments
pub mod Results
pub mod Execution
pub mod Runs
use kaats_v.Base.{
  ℕ, suc, ◌+◌, Bool, true, false, ◌&&◌, ◌||◌, not, Option, none, some, List, [], ◌∷◌, ◌++◌, map,
  String, ◌==◌, if◌then◌else◌, is_none, is_some, or_else, or_keep, select, count, first, length,
  any, elem, get, replace, Result, ok, err, Error, http, cycle_not_found, cycle_completed,
  cycle_closed, script_not_approved, not_a_tester, assignment_not_found, invalid_outcome,
  no_scripts, nothing_dispatched, Action, pure, raise, lift, gets, or_raise, raise_if, modify,
  ◌>>=◌, ◌>>◌,
}
use kaats_v.Schema.{
  Db, TestCycle, TestCycleStatus, TestAssignment, TestAssignmentStatus, TestResult, TestOutcome,
  TestScript, UserRole, UserRoleEnum, user_role_enum, validation_tester, validation_lead, qa,
  company_admin, enterprise_admin, global_admin, AgentRun, is_approved,
}
use kaats_v.Quota.{Platform}
use kaats_v.Agents.{RunOrder, dispatch_execution}
use kaats_v.Access.Check.{CurrentUser, is_allowed}

pub record TestCycleCreate : Type 0 where
  pub name : String
  pub description : Option String
  pub planned_start : Option ℕ
  pub planned_end : Option ℕ
  pub lead_user_id : Option ℕ

unfoldable pub create_cycle : ℕ → TestCycleCreate → ℕ → ℕ → Action Db TestCycle
create_cycle system_id body company_id created_by db =
    let cycle : TestCycle = record {
      id = db.next_id;
      system_id = system_id;
      company_id = company_id;
      name = body.name;
      description = body.description;
      status = TestCycleStatus.planned;
      planned_start = body.planned_start;
      planned_end = body.planned_end;
      actual_start = none;
      actual_end = none;
      lead_user_id = body.lead_user_id;
      created_by = some created_by;
    } in
    (ok cycle, record db { cycles = cycle ∷ db.cycles; next_id = db.next_id + 1 })

unfoldable pub load_cycle : ℕ → Action Db TestCycle
load_cycle cycle_id db =
    or_raise (get TestCycle.id cycle_id db.cycles) (http 404 cycle_not_found) db

unfoldable pub put_cycle : TestCycle → Db → Db
put_cycle cycle db = record db { cycles = replace TestCycle.id cycle db.cycles }

pub record TestCycleUpdate : Type 0 where
  pub name : Option String
  pub description : Option String
  pub status : Option TestCycleStatus
  pub planned_start : Option ℕ
  pub planned_end : Option ℕ
  pub actual_start : Option ℕ
  pub actual_end : Option ℕ
  pub lead_user_id : Option ℕ

unfoldable pub apply_cycle_update : TestCycleUpdate → TestCycle → TestCycle
apply_cycle_update body cycle = record cycle {
  name = or_else body.name cycle.name;
  description = or_keep body.description cycle.description;
  status = or_else body.status cycle.status;
  planned_start = or_keep body.planned_start cycle.planned_start;
  planned_end = or_keep body.planned_end cycle.planned_end;
  actual_start = or_keep body.actual_start cycle.actual_start;
  actual_end = or_keep body.actual_end cycle.actual_end;
  lead_user_id = or_keep body.lead_user_id cycle.lead_user_id;
}

unfoldable pub update_cycle : ℕ → TestCycleUpdate → Action Db TestCycle
update_cycle cycle_id body = do
  cycle ← load_cycle cycle_id
  modify (put_cycle (apply_cycle_update body cycle))
  pure (apply_cycle_update body cycle)

abbrev pub is_completed_cycle : TestCycleStatus → Bool
is_completed_cycle TestCycleStatus.completed = true
is_completed_cycle _ = false

abbrev pub is_planned : TestCycleStatus → Bool
is_planned TestCycleStatus.planned = true
is_planned _ = false

-- A cycle that takes assignments: planned or in progress.
abbrev pub is_open : TestCycleStatus → Bool
is_open TestCycleStatus.in_progress = true
is_open s = is_planned s

abbrev pub aborted_cycle : ℕ → TestCycle → TestCycle
aborted_cycle now cycle = record cycle { status = TestCycleStatus.aborted; actual_end = some now }

unfoldable pub cancel_cycle : ℕ → ℕ → Action Db TestCycle
cancel_cycle now cycle_id = do
  cycle ← load_cycle cycle_id
  raise_if (is_completed_cycle cycle.status) (http 422 cycle_completed)
  modify (put_cycle (aborted_cycle now cycle))
  pure (aborted_cycle now cycle)

pub record TestAssignmentCreate : Type 0 where
  pub test_script_id : ℕ
  pub assigned_to : ℕ
  pub due_date : Option ℕ

-- `_TESTER_ROLES`
abbrev pub is_tester_role : UserRoleEnum → Bool
is_tester_role validation_tester = true
is_tester_role qa = true
is_tester_role validation_lead = true
is_tester_role _ = false

-- The script that the id names is approved and not deleted.
unfoldable pub usable_script : ℕ → Db → Option TestScript
usable_script script_id db =
    first (λ s. (s.id == script_id) && (is_approved s.status && is_none s.deleted_at)) db.scripts

-- A role row of the user, of whatever system or company, is a tester's.
unfoldable pub tester_role : ℕ → Db → Option UserRole
tester_role user_id db =
    first (λ r. (r.user_id == user_id) && is_allowed is_tester_role (user_role_enum r.role_code))
      db.user_roles

abbrev pub new_assignment : ℕ → ℕ → ℕ → TestAssignmentCreate → TestAssignment
new_assignment id cycle_id assigned_by item = record {
  id = id;
  test_cycle_id = cycle_id;
  test_script_id = item.test_script_id;
  assigned_to = item.assigned_to;
  assigned_by = assigned_by;
  due_date = item.due_date;
  status = TestAssignmentStatus.pending;
}

unfoldable pub add_assignment : TestAssignment → Db → Db
add_assignment a db = record db { assignments = a ∷ db.assignments; next_id = db.next_id + 1 }

-- One round of the loop of `bulk_assign`.
unfoldable pub assign_one : ℕ → ℕ → TestAssignmentCreate → Action Db TestAssignment
assign_one cycle_id assigned_by item = do
  script ← gets (usable_script item.test_script_id)
  raise_if (is_none script) (http 422 script_not_approved)
  tester ← gets (tester_role item.assigned_to)
  raise_if (is_none tester) (http 422 not_a_tester)
  id ← gets (λ (db : Db). db.next_id)
  modify (add_assignment (new_assignment id cycle_id assigned_by item))
  pure (new_assignment id cycle_id assigned_by item)

unfoldable pub assign_each : ℕ → ℕ → List TestAssignmentCreate → Action Db (List TestAssignment)
assign_each cycle_id assigned_by [] = pure []
assign_each cycle_id assigned_by (item ∷ items) = do
  a ← assign_one cycle_id assigned_by item
  rest ← assign_each cycle_id assigned_by items
  pure (a ∷ rest)

unfoldable pub bulk_assign : ℕ → List TestAssignmentCreate → ℕ → Action Db (List TestAssignment)
bulk_assign cycle_id items assigned_by = do
  cycle ← load_cycle cycle_id
  raise_if (not (is_open cycle.status)) (http 422 cycle_closed)
  assign_each cycle_id assigned_by items

-- `_is_tester_only`
abbrev pub is_lead_or_above : UserRoleEnum → Bool
is_lead_or_above validation_lead = true
is_lead_or_above qa = true
is_lead_or_above company_admin = true
is_lead_or_above enterprise_admin = true
is_lead_or_above global_admin = true
is_lead_or_above _ = false

abbrev pub is_validation_tester : UserRoleEnum → Bool
is_validation_tester validation_tester = true
is_validation_tester _ = false

unfoldable pub is_tester_only : CurrentUser → Bool
is_tester_only u =
    any (λ r. is_allowed is_validation_tester (user_role_enum r.role_code)) u.roles
    && not (any (λ r. is_allowed is_lead_or_above (user_role_enum r.role_code)) u.roles)

-- `list_assignments` for a caller, in the order of the table.
unfoldable pub list_assignments : ℕ → CurrentUser → Action Db (List TestAssignment)
list_assignments cycle_id u = do
  cycle ← load_cycle cycle_id
  gets (λ db.
      select
        (λ a.
          (a.test_cycle_id == cycle_id) && (not (is_tester_only u) || (a.assigned_to == u.user_id)))
        db.assignments)

-- `_load_assignment`
abbrev pub of_cycle : ℕ → Option TestAssignment → Option TestAssignment
of_cycle cycle_id none = none
of_cycle cycle_id (some a) = if a.test_cycle_id == cycle_id then some a else none

unfoldable pub load_assignment : ℕ → ℕ → Action Db TestAssignment
load_assignment cycle_id assignment_id db =
    or_raise (of_cycle cycle_id (get TestAssignment.id assignment_id db.assignments))
      (http 404 assignment_not_found) db

unfoldable pub put_assignment : TestAssignment → Db → Db
put_assignment a db = record db { assignments = replace TestAssignment.id a db.assignments }

abbrev pub updated_assignment :
    Option TestAssignmentStatus → Option ℕ → TestAssignment → TestAssignment
updated_assignment status due_date a = record a {
  status = or_else status a.status;
  due_date = or_keep due_date a.due_date;
}

unfoldable pub update_assignment :
    ℕ → ℕ → Option TestAssignmentStatus → Option ℕ → Action Db TestAssignment
update_assignment cycle_id assignment_id status due_date = do
  a ← load_assignment cycle_id assignment_id
  modify (put_assignment (updated_assignment status due_date a))
  pure (updated_assignment status due_date a)
