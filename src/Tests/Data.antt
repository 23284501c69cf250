-- ===== src/Tests/Data.antt =====
-- Rows that the tests share: two companies, one system, a few users, and a platform.
use kaats_v.Base.{
  ℕ, ◌+◌, ◌-◌, ◌*◌, ◌/◌, ◌%◌, ◌≤◌, ◌<◌, true, false, Option, none, some, [], ◌∷◌, arith,
}
use kaats_v.Schema.{
  Db, User, UserRole, System, TestScript, TestScriptStatus, role, company_admin, system_manager,
  bpo, UserRoleEnum,
}
use kaats_v.Quota.{Platform}

abbrev pub month_start : ℕ → ℕ
month_start now = now - now % 30

pub month_start_le : (now : ℕ) → month_start now ≤ now
month_start_le now = omega arith

-- Rounds halves up.
abbrev pub round_pct : ℕ → ℕ → ℕ
round_pct used limit = (2000 * used + limit) / (2 * limit)

pub round_pct_low :
    (used limit : ℕ) → 0 < limit → 2000 * used ≤ 2 * (round_pct used limit * limit) + limit
round_pct_low used limit h = grind arith

pub round_pct_high :
    (used limit : ℕ) → 0 < limit → 2 * (round_pct used limit * limit) ≤ 2000 * used + limit
round_pct_high used limit h = grind arith

abbrev pub day_start : ℕ → ℕ
day_start now = now

abbrev pub platform : Platform
platform = record {
  month_start = month_start;
  month_start_le = month_start_le;
  day_start = day_start;
  month_start_le_day_start = month_start_le;
  round_pct = round_pct;
  round_pct_low = round_pct_low;
  round_pct_high = round_pct_high;
}

abbrev pub empty_db : Db
empty_db = record {
  users = [];
  user_roles = [];
  systems = [];
  plans = [];
  requirements = [];
  scripts = [];
  versions = [];
  cases = [];
  steps = [];
  cycles = [];
  assignments = [];
  results = [];
  execution_runs = [];
  step_results = [];
  agent_runs = [];
  token_usage = [];
  jobs = [];
  job_runs = [];
  enterprises = [];
  companies = [];
  invitations = [];
  onboarding = [];
  audit_logs = [];
  next_id = 100;
}

abbrev pub ann : User
ann = record {
  id = 1;
  email = "ann@example.com";
  display_name = none;
  azure_oid = none;
  is_active = true;
  is_global_admin = false;
}

abbrev pub a_role : ℕ → ℕ → UserRoleEnum → ℕ → Option ℕ → UserRole
a_role id user e company system = record {
  id = id;
  user_id = user;
  role_code = role e;
  enterprise_id = none;
  company_id = some company;
  system_id = system;
  business_domain = none;
  expires_at = none;
  granted_by = none;
}

-- Ann is an administrator in company 10 and a business process owner in company 20.
abbrev pub ann_admin : UserRole
ann_admin = a_role 11 1 company_admin 10 none

abbrev pub ann_bpo : UserRole
ann_bpo = a_role 12 1 bpo 20 none

-- User 2 manages system 30 of company 20.
abbrev pub manager_role : UserRole
manager_role = a_role 13 2 system_manager 20 (some 30)

abbrev pub manager : User
manager = record ann { id = 2 }

abbrev pub erp : System
erp = record {
  id = 30;
  company_id = 20;
  name = "ERP";
  system_manager_id = some 2;
  is_active = true;
  is_deleted = false;
}

abbrev pub two_companies : Db
two_companies = record empty_db {
  users = ann ∷ manager ∷ [];
  user_roles = ann_admin ∷ ann_bpo ∷ manager_role ∷ [];
  systems = erp ∷ [];
}

abbrev pub login_script : TestScript
login_script = record {
  id = 40;
  requirement_id = none;
  system_id = 30;
  company_id = 20;
  title = "Login";
  description = none;
  version = 3;
  status = TestScriptStatus.in_review;
  export_format = "playwright";
  script_content = some "open";
  rendered_content = none;
  approved_by = none;
  approved_at = none;
  business_domain = none;
  tags = none;
  created_by = some 1;
  is_deleted = false;
  deleted_at = none;
}

abbrev pub one_script : Db
one_script = record two_companies { scripts = login_script ∷ [] }
