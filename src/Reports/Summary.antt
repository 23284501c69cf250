-- ===== src/Reports/Summary.antt =====
-- The summary of a cycle beside the progress that the cycle itself shows.
use kaats_v.Base.{
  ℕ, ◌+◌, ◌≤◌, ◌≡◌, refl, ◌∙◌, Bool, some, List, [], ◌∷◌, arith, length, count, group_counts,
  count_of, count_of-group_counts, sum_values-group_counts, get, ok,
}
use kaats_v.Schema.{Db, TestCycle, TestAssignment, TestAssignmentStatus}
use kaats_v.Quota.{Platform}
use kaats_v.Cycles.Progress.{
  assignments_of, tally, progress, cycle_progress, progress-total, is_passed, is_failed, is_pending,
  is_blocked, is_skipped, is_in_progress,
}
use kaats_v.Cycles.{load_cycle}
use kaats_v.Reports.{
  CycleSummary, statuses_of, status_key, same_status, counts_by_status, summary_of_counts,
  cycle_summary, share,
}
use kaats_v.Reports.Coverage.{within}

length-statuses_of : (xs : List TestAssignment) → length (statuses_of xs) ≡ length xs
length-statuses_of [] = refl
length-statuses_of (a ∷ xs) = omega (arith, length-statuses_of xs)

count-statuses :
    (s : TestAssignmentStatus) (p : TestAssignmentStatus → Bool) (xs : List TestAssignment)
    → ((t : TestAssignmentStatus) → same_status t s ≡ p t)
    → count (λ k. same_status k s) (statuses_of xs) ≡ tally p xs
unfolding count tally
count-statuses s p [] h = refl
count-statuses s p (a ∷ xs) h = rw (h a.status, count-statuses s p xs h) refl

count_of-tally :
    (s : TestAssignmentStatus) (p : TestAssignmentStatus → Bool) (xs : List TestAssignment)
    → ((t : TestAssignmentStatus) → same_status t s ≡ p t)
    → count_of status_key s (group_counts status_key (statuses_of xs)) ≡ tally p xs
count_of-tally s p xs h =
    count_of-group_counts status_key s (statuses_of xs) ∙ count-statuses s p xs h

cycle_progress-found :
    (i : ℕ) (cycle : TestCycle) (db : Db)
    → get TestCycle.id i db.cycles ≡ some cycle
    → cycle_progress i db ≡ (ok (progress (assignments_of i db)), db)
unfolding cycle_progress load_cycle
cycle_progress-found i cycle db h = ground arith

module _ (platform : Platform) where
  pass_rate_bound : (part whole : ℕ) → part ≤ whole → share platform part whole ≤ 1000
  pass_rate_bound part whole le =
      ground (
        arith,
        platform.round_pct_high part whole,
        within (platform.round_pct part whole) part whole,
      )

  -- For a stored cycle, the summary of the report service agrees with the progress of the cycle
  -- service in all that both show, its six counts add up to the total, and the pass rate is at
  -- most 100 percent.
  pub cycle_summary-cycle_progress :
      (i : ℕ) (cycle : TestCycle) (db : Db)
      → get TestCycle.id i db.cycles ≡ some cycle
      → (s : CycleSummary) × (cycle_summary platform i db ≡ (ok s, db))
        × (cycle_progress i db ≡ (
          ok (record {
            total = s.total;
            passed = s.passed;
            failed = s.failed;
            pending = s.pending;
            blocked = s.blocked;
            skipped = s.skipped;
          }),
          db,
        ))
        × (s.total ≡ s.passed + s.failed + s.blocked + s.skipped + s.pending + s.in_progress)
        × (s.pass_rate ≤ 1000)
  unfolding cycle_summary counts_by_status assignments_of progress
  cycle_summary-cycle_progress i cycle db h =
      let xs = assignments_of i db in
      let p = progress xs in
      let total = sum_values-group_counts status_key (statuses_of xs) ∙ length-statuses_of xs in
      let passed = count_of-tally TestAssignmentStatus.passed is_passed xs (λ t. ground arith) in
      let failed = count_of-tally TestAssignmentStatus.failed is_failed xs (λ t. ground arith) in
      let blocked = count_of-tally TestAssignmentStatus.blocked is_blocked xs (λ t. ground arith) in
      let skipped = count_of-tally TestAssignmentStatus.skipped is_skipped xs (λ t. ground arith) in
      let pending = count_of-tally TestAssignmentStatus.pending is_pending xs (λ t. ground arith) in
      let running =
        count_of-tally TestAssignmentStatus.in_progress is_in_progress xs (λ t. ground arith) in
      let sum = progress-total xs in
      (
        summary_of_counts platform (counts_by_status i db),
        rw h refl,
        rw (cycle_progress-found i cycle db h, total, passed, failed, blocked, skipped, pending)
            refl,
        rw (total, passed, failed, blocked, skipped, pending, running) (omega (arith, sum)),
        rw (total, passed) (pass_rate_bound (p.passed) (p.total) (omega (arith, sum))),
      )
