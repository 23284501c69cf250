-- ===== src/Reports.antt =====
-- Reports: ReportService of backend/app/services/report_service.py. Percentages are in tenths of a
-- percent, rounded by the platform.
pub mod Domains
pub mod Coverage
pub mod Summary
pub mod Usage
use Prim.Native.Nat.{Ordering}
use Prim.Native.String.{compare}
use kaats_v.Base.{
  ℕ, ◌+◌, ◌*◌, ◌-◌, Bool, true, false, ◌&&◌, ◌||◌, not, Option, none, some, List, [], ◌∷◌, ◌++◌,
  map, String, ltb, leb, ◌==◌, opt_is, if◌then◌else◌, is_none, is_some, select, count, length, any,
  get, Key, group_counts, count_of, sum_values, keys, union, ok, err, http, ◌≡◌, refl, ◌↔◌, arith,
  cycle_not_found, company_not_found, Action, pure, gets, or_raise, ◌>>=◌,
}
use kaats_v.Schema.{
  Db, Requirement, TestScript, TestCycle, TestCycleStatus, TestAssignment, TestAssignmentStatus,
  System, Company, AgentRun, AgentType, is_approved,
}
use kaats_v.Quota.{Platform}
use text.Mathlib.Text.{◌==◌ as str_eq}
use text.Mathlib.TextEquality.{eq_iff}

abbrev pub live_in : ℕ → Requirement → Bool
live_in system_id q = (q.system_id == system_id) && is_none q.deleted_at

abbrev pub live_script_in : ℕ → TestScript → Bool
live_script_in system_id s = (s.system_id == system_id) && is_none s.deleted_at

pub record ProjectSummary : Type 0 where
  pub requirement_count : ℕ
  pub script_count : ℕ

unfoldable pub project_summary : ℕ → Db → ProjectSummary
project_summary system_id db = record {
  requirement_count = count (live_in system_id) db.requirements;
  script_count = count (live_script_in system_id) db.scripts;
}

pub record ScriptCoverage : Type 0 where
  pub total_requirements : ℕ
  pub requirements_with_scripts : ℕ
  pub coverage_percent : ℕ

-- `total or 1`
abbrev pub or_one : ℕ → ℕ
or_one n = if n == 0 then 1 else n

-- A requirement that the join finds: live, and named by a script, deleted or not. The count is of
-- distinct ids, which are the rows.
abbrev pub is_covered : ℕ → List TestScript → Requirement → Bool
is_covered system_id scripts q =
    live_in system_id q && any (λ (s : TestScript). opt_is s.requirement_id q.id) scripts

-- A domain, or none; the equality of SQL's and Python's grouping.
abbrev pub same_domain : Option String → Option String → Bool
same_domain none none = true
same_domain none (some t) = false
same_domain (some s) none = false
same_domain (some s) (some t) = str_eq s t

-- `d or ""`
abbrev pub sort_key : Option String → String
sort_key none = ""
sort_key (some s) = s

abbrev pub str_leb : String → String → Bool
str_leb s t = elim (compare s t) [ Ordering.gt ↦ false | _ ↦ true ]

unfoldable pub insert_domain : Option String → List (Option String) → List (Option String)
insert_domain d [] = d ∷ []
insert_domain d (x ∷ xs) =
    if str_leb (sort_key d) (sort_key x) then d ∷ x ∷ xs else x ∷ insert_domain d xs

-- `sorted(domains, key=lambda d: d or "")`
unfoldable pub sort_domains : List (Option String) → List (Option String)
sort_domains [] = []
sort_domains (d ∷ ds) = insert_domain d (sort_domains ds)

pub record DomainRow : Type 0 where
  pub domain : Option String
  pub requirement_count : ℕ
  pub script_count : ℕ
  pub approved_script_count : ℕ
  pub coverage_pct : ℕ

abbrev pub domains_of : List Requirement → List (Option String)
domains_of [] = []
domains_of (q ∷ qs) = q.business_domain ∷ domains_of qs

abbrev pub script_domains_of : List TestScript → List (Option String)
script_domains_of [] = []
script_domains_of (s ∷ ss) = s.business_domain ∷ script_domains_of ss

some_text : (s t : String) → s ≡ t → same_domain (some s) (some t) ≡ true
some_text s t h = (eq_iff s t).1 h

pub same_domain_iff : (a b : Option String) → (same_domain a b ≡ true) ↔ (a ≡ b)
same_domain_iff none none = (λ h. refl, λ h. refl)
same_domain_iff none (some t) = (λ h. absurd (cc h), λ h. absurd (cc h))
same_domain_iff (some s) none = (λ h. absurd (cc h), λ h. absurd (cc h))
same_domain_iff (some s) (some t) =
    (λ h. let q : s ≡ t = (eq_iff s t).0 h in cc q, λ h. let q : s ≡ t = cc h in (eq_iff s t).1 q)

abbrev pub domain_key : Key (Option String)
domain_key = record { same = same_domain; same_iff = same_domain_iff }

-- The three queries of `coverage_by_domain`.
unfoldable pub req_by_domain : ℕ → Db → List (Option String × ℕ)
req_by_domain system_id db =
    group_counts domain_key (domains_of (select (live_in system_id) db.requirements))

unfoldable pub scripts_by_domain : ℕ → Db → List (Option String × ℕ)
scripts_by_domain system_id db =
    group_counts domain_key (script_domains_of (select (live_script_in system_id) db.scripts))

unfoldable pub approved_by_domain : ℕ → Db → List (Option String × ℕ)
approved_by_domain system_id db = group_counts domain_key (
    script_domains_of (select (λ s. live_script_in system_id s && is_approved s.status) db.scripts))

pub record CycleSummary : Type 0 where
  pub total : ℕ
  pub passed : ℕ
  pub failed : ℕ
  pub blocked : ℕ
  pub skipped : ℕ
  pub pending : ℕ
  pub in_progress : ℕ
  pub pass_rate : ℕ

abbrev pub status_code : TestAssignmentStatus → ℕ
status_code TestAssignmentStatus.pending = 0
status_code TestAssignmentStatus.in_progress = 1
status_code TestAssignmentStatus.passed = 2
status_code TestAssignmentStatus.failed = 3
status_code TestAssignmentStatus.blocked = 4
status_code TestAssignmentStatus.skipped = 5

abbrev pub same_status : TestAssignmentStatus → TestAssignmentStatus → Bool
same_status a b = status_code a == status_code b

pub same_status_iff : (a b : TestAssignmentStatus) → (same_status a b ≡ true) ↔ (a ≡ b)
same_status_iff a b = (λ h. ground arith, λ h. ground arith)

abbrev pub status_key : Key TestAssignmentStatus
status_key = record { same = same_status; same_iff = same_status_iff }

abbrev pub statuses_of : List TestAssignment → List TestAssignmentStatus
statuses_of [] = []
statuses_of (a ∷ rest) = a.status ∷ statuses_of rest

abbrev pub in_cycle : ℕ → TestAssignment → Bool
in_cycle cycle_id a = a.test_cycle_id == cycle_id

unfoldable pub counts_by_status : ℕ → Db → List (TestAssignmentStatus × ℕ)
counts_by_status cycle_id db =
    group_counts status_key (statuses_of (select (in_cycle cycle_id) db.assignments))

module _ (platform : Platform) where
  -- `round(part / whole * 100, 1) if whole > 0 else 0.0`
  abbrev pub share : ℕ → ℕ → ℕ
  share part whole = if ltb 0 whole then platform.round_pct part whole else 0

  unfoldable pub script_coverage : ℕ → Db → ScriptCoverage
  script_coverage system_id db =
      let total = count (live_in system_id) db.requirements in
      let covered = count (is_covered system_id db.scripts) db.requirements in
      record {
        total_requirements = total;
        requirements_with_scripts = covered;
        coverage_percent = platform.round_pct covered (or_one total);
      }

  abbrev pub domain_row : ℕ → Db → Option String → DomainRow
  domain_row system_id db d =
      let reqs = count_of domain_key d (req_by_domain system_id db) in
      let approved = count_of domain_key d (approved_by_domain system_id db) in
      record {
        domain = d;
        requirement_count = reqs;
        script_count = count_of domain_key d (scripts_by_domain system_id db);
        approved_script_count = approved;
        coverage_pct = share approved reqs;
      }

  unfoldable pub coverage_by_domain : ℕ → Db → List DomainRow
  coverage_by_domain system_id db =
      let all_domains =
        union domain_key (keys domain_key (req_by_domain system_id db))
          (keys domain_key (scripts_by_domain system_id db)) in
      map (domain_row system_id db) (sort_domains all_domains)

  abbrev pub summary_of_counts : List (TestAssignmentStatus × ℕ) → CycleSummary
  summary_of_counts counts =
      let n = λ (s : TestAssignmentStatus). count_of status_key s counts in
      let total = sum_values status_key counts in
      record {
        total = total;
        passed = n TestAssignmentStatus.passed;
        failed = n TestAssignmentStatus.failed;
        blocked = n TestAssignmentStatus.blocked;
        skipped = n TestAssignmentStatus.skipped;
        pending = n TestAssignmentStatus.pending;
        in_progress = n TestAssignmentStatus.in_progress;
        pass_rate = share (n TestAssignmentStatus.passed) total;
      }

  unfoldable pub cycle_summary : ℕ → Action Db CycleSummary
  cycle_summary cycle_id = do
    found ← gets (λ (db : Db). get TestCycle.id cycle_id db.cycles)
    cycle ← or_raise found (http 404 cycle_not_found)
    gets (λ db. summary_of_counts (counts_by_status cycle_id db))

pub record CompanyOverview : Type 0 where
  pub system_count : ℕ
  pub requirement_count : ℕ
  pub script_count : ℕ
  pub approved_script_count : ℕ
  pub active_cycle_count : ℕ

abbrev pub is_active_cycle : TestCycleStatus → Bool
is_active_cycle TestCycleStatus.planned = true
is_active_cycle TestCycleStatus.in_progress = true
is_active_cycle _ = false

unfoldable pub company_overview : ℕ → Action Db CompanyOverview
company_overview company_id = do
  found ← gets (λ (db : Db). get Company.id company_id db.companies)
  company ← or_raise found (http 404 company_not_found)
  gets (λ db. record {
    system_count =
        count (λ (s : System). (s.company_id == company_id) && not s.is_deleted) db.systems;
    requirement_count =
        count (λ (q : Requirement). (q.company_id == company_id) && is_none q.deleted_at)
          db.requirements;
    script_count =
        count (λ (s : TestScript). (s.company_id == company_id) && is_none s.deleted_at) db.scripts;
    approved_script_count =
        count
          (λ (s : TestScript).
            (s.company_id == company_id) && (is_approved s.status && is_none s.deleted_at))
          db.scripts;
    active_cycle_count =
        count (λ (c : TestCycle). (c.company_id == company_id) && is_active_cycle c.status)
          db.cycles;
  })
