-- ===== src/Cycles/Progress.antt =====
-- The progress of a cycle: `get_cycle_detail` and `list_for_system` of
-- backend/app/services/test_cycle_service.py count its assignments by status.
use kaats_v.Base.{
  ℕ, suc, ◌+◌, ◌≡◌, refl, true, false, ◌==◌, Bool, List, [], ◌∷◌, arith, length, select,
  if◌then◌else◌, Action, gets, ◌>>=◌,
}
use kaats_v.Schema.{Db, TestAssignment, TestAssignmentStatus}
use kaats_v.Cycles.{load_cycle}

abbrev pub is_passed : TestAssignmentStatus → Bool
is_passed TestAssignmentStatus.passed = true
is_passed _ = false

abbrev pub is_failed : TestAssignmentStatus → Bool
is_failed TestAssignmentStatus.failed = true
is_failed _ = false

abbrev pub is_pending : TestAssignmentStatus → Bool
is_pending TestAssignmentStatus.pending = true
is_pending _ = false

abbrev pub is_blocked : TestAssignmentStatus → Bool
is_blocked TestAssignmentStatus.blocked = true
is_blocked _ = false

abbrev pub is_skipped : TestAssignmentStatus → Bool
is_skipped TestAssignmentStatus.skipped = true
is_skipped _ = false

abbrev pub is_in_progress : TestAssignmentStatus → Bool
is_in_progress TestAssignmentStatus.in_progress = true
is_in_progress _ = false

pub record Progress : Type 0 where
  pub total : ℕ
  pub passed : ℕ
  pub failed : ℕ
  pub pending : ℕ
  pub blocked : ℕ
  pub skipped : ℕ

-- `cycle.assignments`
unfoldable pub assignments_of : ℕ → Db → List TestAssignment
assignments_of cycle_id db = select (λ a. a.test_cycle_id == cycle_id) db.assignments

-- `sum(1 for a in assignments if a.status == value)`
unfoldable pub tally : (TestAssignmentStatus → Bool) → List TestAssignment → ℕ
tally p [] = 0
tally p (a ∷ rest) = if p a.status then suc (tally p rest) else tally p rest

unfoldable pub progress : List TestAssignment → Progress
progress assignments = record {
  total = length assignments;
  passed = tally is_passed assignments;
  failed = tally is_failed assignments;
  pending = tally is_pending assignments;
  blocked = tally is_blocked assignments;
  skipped = tally is_skipped assignments;
}

-- The progress that `get_cycle_detail` returns.
unfoldable pub cycle_progress : ℕ → Action Db Progress
cycle_progress cycle_id = do
  cycle ← load_cycle cycle_id
  gets (λ db. progress (assignments_of cycle_id db))

-- The total is the sum of the five counts and of the assignments in progress, which no count shows.
pub progress-total :
    (assignments : List TestAssignment)
    → let p = progress assignments in
      p.total
      ≡ p.passed + p.failed + p.pending + p.blocked + p.skipped + tally is_in_progress assignments
unfolding progress tally
progress-total [] = refl
progress-total (a ∷ rest) = ground (arith, progress-total rest)
