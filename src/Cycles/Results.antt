-- ===== src/Cycles/Results.antt =====
-- The result of a test: `submit_result` of backend/app/services/test_cycle_service.py.
use kaats_v.Base.{
  ℕ, ◌+◌, ◌≡◌, refl, ◌⊎◌, inl, inr, Option, none, some, ◌∷◌, String, arith, get, get-key,
  get-replace, ok, err, http, invalid_outcome, Action, pure, or_raise, modify, gets, ◌>>=◌, ◌>>◌,
}
use kaats_v.Schema.{Db, TestAssignment, TestAssignmentStatus, TestOutcome, TestResult}
use kaats_v.Cycles.{load_assignment, put_assignment}

abbrev pub status_of_outcome : TestOutcome → TestAssignmentStatus
status_of_outcome TestOutcome.passed = TestAssignmentStatus.passed
status_of_outcome TestOutcome.failed = TestAssignmentStatus.failed
status_of_outcome TestOutcome.blocked = TestAssignmentStatus.blocked
status_of_outcome TestOutcome.skipped = TestAssignmentStatus.skipped

pub record ResultBody : Type 0 where
  pub actual_result : Option String
  pub notes : Option String
  pub executed_by : ℕ
  pub company_id : ℕ

abbrev pub new_result : ℕ → TestAssignment → TestOutcome → ResultBody → TestResult
new_result id a outcome body = record {
  id = id;
  assignment_id = a.id;
  test_script_id = a.test_script_id;
  company_id = body.company_id;
  executed_by = body.executed_by;
  outcome = outcome;
  actual_result = body.actual_result;
  notes = body.notes;
}

unfoldable pub add_result : TestResult → Db → Db
add_result r db = record db { results = r ∷ db.results; next_id = db.next_id + 1 }

-- `submit_result`, where the outcome is missing if the text is none of TestOutcome.
unfoldable pub submit_result : ℕ → ℕ → Option TestOutcome → ResultBody → Action Db TestResult
submit_result cycle_id assignment_id outcome body = do
  a ← load_assignment cycle_id assignment_id
  valid ← or_raise outcome (http 422 invalid_outcome)
  id ← gets (λ (db : Db). db.next_id)
  modify (add_result (new_result id a valid body))
  modify (put_assignment (record a { status = status_of_outcome valid }))
  pure (new_result id a valid body)

-- A valid outcome for a stored assignment of the cycle is recorded once, in front of the other
-- results, and the assignment gets the status of the outcome; an invalid one raises 422 and
-- changes nothing.
pub submit_result-recorded :
    (cycle_id i : ℕ) (outcome : Option TestOutcome) (body : ResultBody) (a : TestAssignment)
    (db : Db)
    → get TestAssignment.id i db.assignments ≡ some a
    → a.test_cycle_id ≡ cycle_id
    → ((outcome ≡ none)
        × (submit_result cycle_id i outcome body db ≡ (err (http 422 invalid_outcome), db)))
      ⊎ ((o : TestOutcome) × (outcome ≡ some o)
          × ((submit_result cycle_id i outcome body db).0 ≡ ok (new_result db.next_id a o body))
          × ((submit_result cycle_id i outcome body db).1.results
              ≡ new_result db.next_id a o body ∷ db.results)
          × (get TestAssignment.id i (submit_result cycle_id i outcome body db).1.assignments
              ≡ some (record a { status = status_of_outcome o })))
unfolding submit_result load_assignment add_result put_assignment
submit_result-recorded cycle_id i none body a db h c = inl (refl, ground arith)
submit_result-recorded cycle_id i (some o) body a db h c =
    let key = get-key TestAssignment.id i a db.assignments h in
    inr (
      o,
      refl,
      ground arith,
      ground arith,
      ground (
        arith,
        get-replace TestAssignment.id i (record a { status = status_of_outcome o }) a
            db.assignments,
      ),
    )
