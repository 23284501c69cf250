-- ===== src/Evidence/Totals.antt =====
-- The totals and the status of an execution.
use kaats_v.Base.{
  ℕ, ◌+◌, ◌≤◌, ◌≡◌, refl, ◌↔◌, ◌≢◌, ◌⊎◌, inl, inr, Bool-cases, false, some, List, [], ◌∷◌, arith,
  ◌==◌, count, length, get, get-key, get-replace, All,
}
use kaats_v.Schema.{ExecutionRun, ExecutionStatus, ExecutionStepResult, StepOutcome, other_outcome}
use kaats_v.Evidence.{
  State, finalized, Summary, is_passed, is_failed, is_blocked, steps_of, tally, summary_of,
  with_summary, finalize_execution_run,
}

-- An outcome that does not keep a run from passing.
abbrev pub Allows : ExecutionStepResult → Type 0
Allows x = (x.outcome ≢ StepOutcome.failed) × (x.outcome ≢ StepOutcome.blocked)

allows :
    (o : StepOutcome)
    → is_failed o ≡ false
    → is_blocked o ≡ false
    → (o ≢ StepOutcome.failed) × (o ≢ StepOutcome.blocked)
allows o h k = (λ e. ground (arith, e), λ e. ground (arith, e))

tally-none :
    (steps : List ExecutionStepResult)
    → tally is_failed steps ≡ 0
    → tally is_blocked steps ≡ 0
    → All Allows steps
unfolding count
tally-none [] h k = tt
tally-none (x ∷ xs) h k =
    (allows x.outcome (ground arith) (ground arith), tally-none xs (ground arith) (ground arith))

not_failed : (o : StepOutcome) → o ≢ StepOutcome.failed → is_failed o ≡ false
not_failed StepOutcome.failed h = absurd (h refl)
not_failed StepOutcome.passed h = refl
not_failed StepOutcome.blocked h = refl
not_failed StepOutcome.skipped h = refl
not_failed StepOutcome.error h = refl
not_failed (other_outcome s) h = refl

not_blocked : (o : StepOutcome) → o ≢ StepOutcome.blocked → is_blocked o ≡ false
not_blocked StepOutcome.blocked h = absurd (h refl)
not_blocked StepOutcome.passed h = refl
not_blocked StepOutcome.failed h = refl
not_blocked StepOutcome.skipped h = refl
not_blocked StepOutcome.error h = refl
not_blocked (other_outcome s) h = refl

none-tally :
    (steps : List ExecutionStepResult)
    → All Allows steps
    → (tally is_failed steps ≡ 0) × (tally is_blocked steps ≡ 0)
unfolding count
none-tally [] h = (refl, refl)
none-tally (x ∷ xs) h =
    let a = not_failed x.outcome h.0.0 in
    let b = not_blocked x.outcome h.0.1 in let (c, d) = none-tally xs h.1 in (rw a c, rw b d)

tally-add :
    (steps : List ExecutionStepResult)
    → tally is_passed steps + tally is_failed steps + tally is_blocked steps ≤ length steps
unfolding count
tally-add [] = omega arith
tally-add (x ∷ xs) = ground (arith, tally-add xs)

overall_iff :
    (steps : List ExecutionStepResult)
    → ((summary_of steps).status ≡ ExecutionStatus.passed) ↔ ((1 ≤ length steps) × All Allows steps)
overall_iff steps = (
  λ h. (ground arith, tally-none steps (ground arith) (ground arith)),
  λ p. let (a, b) = none-tally steps p.1 in let l = p.0 in ground (arith, a, b, l),
)

-- The numbers of the steps that passed, that failed and that were blocked, one step after the other.
pub data Tallied : List ExecutionStepResult → ℕ → ℕ → ℕ → Type 0 where
  nothing : Tallied [] 0 0 0
  pass :
      {x : ExecutionStepResult}
      → {xs : List ExecutionStepResult} → {p f b : ℕ} → x.outcome ≡ StepOutcome.passed
      → Tallied xs p f b
      → Tallied (x ∷ xs) (p + 1) f b
  fail :
      {x : ExecutionStepResult}
      → {xs : List ExecutionStepResult} → {p f b : ℕ} → x.outcome ≡ StepOutcome.failed
      → Tallied xs p f b
      → Tallied (x ∷ xs) p (f + 1) b
  block :
      {x : ExecutionStepResult}
      → {xs : List ExecutionStepResult} → {p f b : ℕ} → x.outcome ≡ StepOutcome.blocked
      → Tallied xs p f b
      → Tallied (x ∷ xs) p f (b + 1)
  pass_over :
      {x : ExecutionStepResult}
      → {xs : List ExecutionStepResult} → {p f b : ℕ} → x.outcome ≢ StepOutcome.passed
      → x.outcome ≢ StepOutcome.failed
      → x.outcome ≢ StepOutcome.blocked
      → Tallied xs p f b
      → Tallied (x ∷ xs) p f b

counted :
    {xs : List ExecutionStepResult}
    → {p q f g b c : ℕ} → p ≡ q
    → f ≡ g
    → b ≡ c
    → Tallied xs p f b
    → Tallied xs q g c
counted h k l t = rw (← h, ← k, ← l) t

tally-Tallied :
    (steps : List ExecutionStepResult)
    → Tallied steps (tally is_passed steps) (tally is_failed steps) (tally is_blocked steps)
unfolding count
tally-Tallied [] = nothing
tally-Tallied (x ∷ xs) = by_outcome x.outcome refl (tally-Tallied xs)
  where
    by_outcome :
        (o : StepOutcome)
        → x.outcome ≡ o
        → Tallied xs (tally is_passed xs) (tally is_failed xs) (tally is_blocked xs)
        → Tallied
            (x ∷ xs)
            (tally is_passed (x ∷ xs))
            (tally is_failed (x ∷ xs))
            (tally is_blocked (x ∷ xs))
    by_outcome StepOutcome.passed e rest =
        counted (ground arith) (ground arith) (ground arith) (pass e rest)
    by_outcome StepOutcome.failed e rest =
        counted (ground arith) (ground arith) (ground arith) (fail e rest)
    by_outcome StepOutcome.blocked e rest =
        counted (ground arith) (ground arith) (ground arith) (block e rest)
    by_outcome StepOutcome.skipped e rest =
        counted (ground arith) (ground arith) (ground arith)
          (pass_over (λ q. absurd (cc)) (λ q. absurd (cc)) (λ q. absurd (cc)) rest)
    by_outcome StepOutcome.error e rest =
        counted (ground arith) (ground arith) (ground arith)
          (pass_over (λ q. absurd (cc)) (λ q. absurd (cc)) (λ q. absurd (cc)) rest)
    by_outcome (other_outcome t) e rest =
        counted (ground arith) (ground arith) (ground arith)
          (pass_over (λ q. absurd (cc)) (λ q. absurd (cc)) (λ q. absurd (cc)) rest)

-- The run finished at the time with the status and the totals of the summary, and its other columns
-- kept.
abbrev pub IsFinished : ℕ → Summary → ExecutionRun → ExecutionRun → Type 0
IsFinished now sum old new =
    (new.status ≡ sum.status)
    × (new.total_steps ≡ sum.total_steps)
    × (new.passed_steps ≡ sum.passed_steps)
    × (new.failed_steps ≡ sum.failed_steps)
    × (new.completed_at ≡ some now)
    × (new.id ≡ old.id)
    × (new.agent_run_id ≡ old.agent_run_id)
    × (new.test_script_id ≡ old.test_script_id)
    × (new.company_id ≡ old.company_id)
    × (new.created_at ≡ old.created_at)

failed_status :
    (steps : List ExecutionStepResult)
    → ((summary_of steps).status ≡ ExecutionStatus.passed)
      ⊎ ((summary_of steps).status ≡ ExecutionStatus.failed)
failed_status steps = ground arith

-- Finalising a stored run answers with a summary and writes its status, its totals and the time of
-- the end to the run, whose other columns are kept; another run stays as it was. The summary
-- counts all the steps, and those that passed, failed and were blocked, which are together at most
-- all of them. Its status is passed or failed: passed exactly when the run has a step and none of
-- its steps failed or was blocked.
pub finalize_execution_run-totals :
    (now i j : ℕ) (run : ExecutionRun) (s : State)
    → get ExecutionRun.id i s.db.execution_runs ≡ some run
    → let s' = (finalize_execution_run now (some i) s).1 in
      (sum : Summary) × (new : ExecutionRun) × ((finalize_execution_run now (some i) s).0
        ≡ finalized sum)
      × (get ExecutionRun.id i s'.db.execution_runs ≡ some new)
      × IsFinished now sum run new
      × ((i ≡ j)
          ⊎ (get ExecutionRun.id j s'.db.execution_runs
              ≡ get ExecutionRun.id j s.db.execution_runs))
      × (sum.total_steps ≡ length (steps_of i s.db))
      × Tallied (steps_of i s.db) sum.passed_steps sum.failed_steps sum.blocked_steps
      × (sum.passed_steps + sum.failed_steps + sum.blocked_steps ≤ sum.total_steps)
      × ((sum.status ≡ ExecutionStatus.passed) ⊎ (sum.status ≡ ExecutionStatus.failed))
      × ((sum.status ≡ ExecutionStatus.passed)
          ↔ ((1 ≤ length (steps_of i s.db)) × All Allows (steps_of i s.db)))
unfolding finalize_execution_run
finalize_execution_run-totals now i j run s h =
    let key = get-key ExecutionRun.id i run s.db.execution_runs h in
    let steps = steps_of i s.db in
    let sum = summary_of steps in
    let new = with_summary now sum run in
    let stored = λ (k : ℕ). get-replace ExecutionRun.id k new run s.db.execution_runs in
    (
      sum,
      new,
      rw (h, key) refl,
      ground (arith, key, stored i),
      (refl, refl, refl, refl, refl, refl, refl, refl, refl, refl),
      elim (Bool-cases (i == j)) [
        | inl e ↦ inl (ground arith)
        | inr e ↦ inr (ground (arith, key, stored j))
      ],
      refl,
      tally-Tallied steps,
      tally-add steps,
      failed_status steps,
      overall_iff steps,
    )

abbrev pub IsErrored : ExecutionStepResult → Type 0
IsErrored x = x.outcome ≡ StepOutcome.error

errored-Allows : (steps : List ExecutionStepResult) → All IsErrored steps → All Allows steps
errored-Allows [] h = tt
errored-Allows (x ∷ xs) h =
    ((λ e. ground (arith, e, h.0), λ e. ground (arith, e, h.0)), errored-Allows xs h.1)

errored-tally : (steps : List ExecutionStepResult) → All IsErrored steps → tally is_passed steps ≡ 0
unfolding count
errored-tally [] h = refl
errored-tally (x ∷ xs) h = rw h.0 (errored-tally xs h.1)

-- A run whose steps all ended in an error, at least one, is finalised as passed, with no step
-- passed and none failed.
pub finalize_execution_run-errors :
    (now i : ℕ) (run : ExecutionRun) (s : State)
    → get ExecutionRun.id i s.db.execution_runs ≡ some run
    → 1 ≤ length (steps_of i s.db)
    → All IsErrored (steps_of i s.db)
    → (sum : Summary) × ((finalize_execution_run now (some i) s).0 ≡ finalized sum)
      × (sum.status ≡ ExecutionStatus.passed)
      × (sum.passed_steps ≡ 0)
      × (sum.failed_steps ≡ 0)
unfolding finalize_execution_run
finalize_execution_run-errors now i run s h l a =
    let key = get-key ExecutionRun.id i run s.db.execution_runs h in
    let steps = steps_of i s.db in
    let b = errored-Allows steps a in
    (
      summary_of steps,
      rw (h, key) refl,
      (overall_iff steps).1 (l, b),
      errored-tally steps a,
      (none-tally steps b).0,
    )
