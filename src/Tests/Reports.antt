-- ===== src/Tests/Reports.antt =====
-- Reports on a system with two requirements and one script, and on a cycle.
use kaats_v.Base.{◌+◌, ◌≤◌, ◌≡◌, refl, false, some, none, [], ◌∷◌, get, ok}
use kaats_v.Schema.{
  Db, Requirement, RequirementStatus, TestCycle, TestCycleStatus, TestAssignment,
  TestAssignmentStatus,
}
use kaats_v.Cycles.Progress.{cycle_progress}
use kaats_v.Reports.{CycleSummary, cycle_summary, coverage_by_domain, project_summary}
use kaats_v.Reports.Domains.{sum_requirements, coverage_by_domain-project_summary}
use kaats_v.Reports.Summary.{cycle_summary-cycle_progress}
use kaats_v.Tests.Data.{platform, two_companies, login_script}

abbrev pay : Requirement
pay = record {
  id = 71;
  system_id = 30;
  company_id = 20;
  title = "Pay";
  description = "Bills are paid";
  status = RequirementStatus.active;
  business_domain = some "finance";
  priority = "medium";
  source_type = "manual";
  created_at = 1;
  is_deleted = false;
  deleted_at = none;
}

abbrev log_in : Requirement
log_in = record pay { id = 72; title = "Log in"; business_domain = none }

abbrev sprint : TestCycle
sprint = record {
  id = 80;
  system_id = 30;
  company_id = 20;
  name = "Sprint";
  description = none;
  status = TestCycleStatus.in_progress;
  planned_start = none;
  planned_end = none;
  actual_start = none;
  actual_end = none;
  lead_user_id = none;
  created_by = none;
}

abbrev task : TestAssignment
task = record {
  id = 81;
  test_cycle_id = 80;
  test_script_id = 40;
  assigned_to = 1;
  assigned_by = 2;
  due_date = none;
  status = TestAssignmentStatus.in_progress;
}

abbrev reported : Db
reported = record two_companies {
  requirements = pay ∷ log_in ∷ [];
  scripts = record login_script { requirement_id = some 72 } ∷ [];
  cycles = sprint ∷ [];
  assignments = task ∷ [];
}

coverage_by_domain-project_summary_example :
    sum_requirements (coverage_by_domain platform 30 reported)
    ≡ (project_summary 30 reported).requirement_count
coverage_by_domain-project_summary_example = coverage_by_domain-project_summary platform 30 reported

cycle_summary-cycle_progress_example :
    (s : CycleSummary) × (cycle_summary platform 80 reported ≡ (ok s, reported))
    × (cycle_progress 80 reported ≡ (
      ok (record {
        total = s.total;
        passed = s.passed;
        failed = s.failed;
        pending = s.pending;
        blocked = s.blocked;
        skipped = s.skipped;
      }),
      reported,
    ))
    × (s.total ≡ s.passed + s.failed + s.blocked + s.skipped + s.pending + s.in_progress)
    × (s.pass_rate ≤ 1000)
unfolding get
cycle_summary-cycle_progress_example = cycle_summary-cycle_progress platform 80 sprint reported refl
