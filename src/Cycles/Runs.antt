-- ===== src/Cycles/Runs.antt =====
-- Which runs the execution of a cycle starts.
use kaats_v.Base.{
  ℕ, suc, ◌≡◌, ◌≢◌, Memᴰ, ◌⊎◌, true, Option, some, List, ok, Result, length, elem, is_some,
}
use kaats_v.Schema.{Db, TestCycle, TestCycleStatus, TestAssignment, AgentRun}
use kaats_v.Quota.{Platform}
use kaats_v.Cycles.Assignments.{IsUsable}
use kaats_v.Cycles.{usable_script}
use kaats_v.Cycles.Execution.{Dispatched, add_outcome}

-- The script is one of the ids, and found among the usable ones.
abbrev Checked : List ℕ → Db → Dispatched → Type 0
Checked ids db d = (elem d.script_id ids ≡ true) × (is_some (usable_script d.script_id db) ≡ true)

-- A stored assignment of the cycle names the script, and the script is stored, approved and not
-- deleted.
abbrev pub IsApproved : ℕ → Db → Dispatched → Type 0
IsApproved cycle_id db d =
    ((a : TestAssignment) × Memᴰ a db.assignments
      × (a.test_cycle_id ≡ cycle_id)
      × (a.test_script_id ≡ d.script_id))
    × IsUsable d.script_id db

-- The cycle after a start at the time: in progress since then if it was planned, and else with the
-- status and the start that it had; the other columns are kept.
abbrev pub IsStarted : ℕ → TestCycle → TestCycle → Type 0
IsStarted now old new =
    (((old.status ≡ TestCycleStatus.planned)
        × (new.status ≡ TestCycleStatus.in_progress)
        × (new.actual_start ≡ some now))
      ⊎ ((old.status ≢ TestCycleStatus.planned)
          × (new.status ≡ old.status)
          × (new.actual_start ≡ old.actual_start)))
    × (new.id ≡ old.id)
    × (new.system_id ≡ old.system_id)
    × (new.company_id ≡ old.company_id)
    × (new.name ≡ old.name)
    × (new.description ≡ old.description)
    × (new.planned_start ≡ old.planned_start)
    × (new.planned_end ≡ old.planned_end)
    × (new.actual_end ≡ old.actual_end)
    × (new.lead_user_id ≡ old.lead_user_id)
    × (new.created_by ≡ old.created_by)

module _ (platform : Platform) where
  -- What one round does to the scripts and the runs: it adds one run and one entry, for a usable
  -- script, or no run and no entry.
  abbrev Round : ℕ → Option (Result AgentRun) → Db → Db → Type 0
  Round i o db db' =
      (db'.scripts ≡ db.scripts)
      × (((run : AgentRun) × (o ≡ some (ok run))
            × (is_some (usable_script i db) ≡ true)
            × (length db'.agent_runs ≡ suc (length db.agent_runs)))
          ⊎ (((ds : List Dispatched) → add_outcome i o ds ≡ ds)
              × (length db'.agent_runs ≡ length db.agent_runs)))
