-- ===== src/Cycles/Execution.antt =====
-- Running a cycle: `execute_all` of backend/app/services/test_cycle_service.py dispatches one agent
-- run for each approved script; an exception of one dispatch is caught, and the script skipped.
use kaats_v.Base.{
  ℕ, true, false, Bool, ◌==◌, Option, none, some, List, [], ◌∷◌, map, ok, err, http, Result, elem,
  select, Action, pure, gets, raise_if, modify, ◌>>=◌, ◌>>◌, no_scripts, nothing_dispatched,
  if◌then◌else◌,
}
use kaats_v.Schema.{Db, TestCycle, TestCycleStatus, TestAssignment, AgentRun, TestScript}
use kaats_v.Quota.{Platform}
use kaats_v.Agents.{RunOrder, dispatch_execution}
use kaats_v.Cycles.{load_cycle, put_cycle, is_planned, usable_script}

-- `distinct()`
unfoldable pub distinct : List ℕ → List ℕ
distinct [] = []
distinct (x ∷ xs) = let rest = distinct xs in if elem x rest then rest else x ∷ rest

-- The scripts that are assigned in the cycle.
unfoldable pub scripts_of : ℕ → Db → List ℕ
scripts_of cycle_id db = distinct (
    map (λ (a : TestAssignment). a.test_script_id)
      (select (λ a. a.test_cycle_id == cycle_id) db.assignments))

-- What `execute_all` returns for a script.
pub record Dispatched : Type 0 where
  pub script_id : ℕ
  pub agent_run_id : ℕ

abbrev pub order_for : TestCycle → ℕ → ℕ → RunOrder
order_for cycle company_id user_id = record {
  company_id = company_id;
  system_id = some cycle.system_id;
  triggered_by_user_id = some user_id;
  scheduled_job_id = none;
}

-- A cycle that was planned is in progress once something runs.
abbrev pub started_cycle : ℕ → TestCycle → TestCycle
started_cycle now cycle =
    if is_planned cycle.status
    then record cycle { status = TestCycleStatus.in_progress; actual_start = some now }
    else cycle

abbrev pub add_dispatched : ℕ → Result AgentRun → List Dispatched → List Dispatched
add_dispatched script_id (ok run) ds = record { script_id = script_id; agent_run_id = run.id } ∷ ds
add_dispatched script_id (err e) ds = ds

abbrev pub is_empty : List Dispatched → Bool
is_empty [] = true
is_empty (d ∷ ds) = false

abbrev pub no_ids : List ℕ → Bool
no_ids [] = true
no_ids (x ∷ xs) = false

abbrev pub add_outcome : ℕ → Option (Result AgentRun) → List Dispatched → List Dispatched
add_outcome script_id none ds = ds
add_outcome script_id (some r) ds = add_dispatched script_id r ds

module _ (platform : Platform) where
  -- One round of the loop: a script that is not approved is skipped.
  unfoldable pub execute_one :
      ℕ → RunOrder → ℕ → Option TestScript → Db → Option (Result AgentRun) × Db
  execute_one now order script_id none db = (none, db)
  execute_one now order script_id (some s) db =
      let (r, db') = dispatch_execution platform now order script_id db in (some r, db')

  unfoldable pub execute_each : ℕ → RunOrder → List ℕ → Db → List Dispatched × Db
  execute_each now order [] db = ([], db)
  execute_each now order (script_id ∷ ids) db =
      let (o, db') = execute_one now order script_id (usable_script script_id db) db in
      let (ds, db'') = execute_each now order ids db' in (add_outcome script_id o ds, db'')

  unfoldable pub execute_all : ℕ → ℕ → ℕ → ℕ → Action Db (List Dispatched)
  execute_all now cycle_id company_id user_id = do
    cycle ← load_cycle cycle_id
    ids ← gets (scripts_of cycle_id)
    raise_if (no_ids ids) (http 422 no_scripts)
    dispatched ← (λ db.
        let (ds, db') = execute_each now (order_for cycle company_id user_id) ids db in
        (ok ds, db'))
    raise_if (is_empty dispatched) (http 422 nothing_dispatched)
    modify (put_cycle (started_cycle now cycle))
    pure dispatched
