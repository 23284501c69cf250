-- ===== src/Quota.antt =====
-- Usage metering and quotas, backend/app/services/usage_service.py.
pub mod Plans
pub mod Enforcement
use kaats_v.Base.{
  ℕ, zero, suc, ◌+◌, ◌*◌, ◌≤◌, ◌<◌, Bool, true, false, ◌&&◌, Option, none, some, List, [], ◌∷◌,
  String, ltb, leb, ◌==◌, if◌then◌else◌, or_else, or_keep, count, get, replace, Result, ok, err,
  http, runs_exceeded, tokens_exceeded, unknown_tier, Action, is_some, is_none,
}
use kaats_v.Schema.{Db, CompanyPlan, CompanyTokenUsage, AgentRun}
use text.Mathlib.Text.{◌==◌ as str_eq}

-- What the quota check takes from the platform: the start of the month and of the day of a point
-- in time, and
-- `round(used / limit * 100, 1)` in tenths of a percent, which is off by at most half a tenth.
pub record Platform : Type 0 where
  pub month_start : ℕ → ℕ
  pub month_start_le : (now : ℕ) → month_start now ≤ now
  pub day_start : ℕ → ℕ
  pub month_start_le_day_start : (now : ℕ) → month_start now ≤ day_start now
  pub round_pct : ℕ → ℕ → ℕ
  pub round_pct_low :
      (used limit : ℕ) → 0 < limit → 2000 * used ≤ 2 * (round_pct used limit * limit) + limit
  pub round_pct_high :
      (used limit : ℕ) → 0 < limit → 2 * (round_pct used limit * limit) ≤ 2000 * used + limit

pub record PlanDefaults : Type 0 where
  pub plan_tier : String
  pub monthly_token_limit : Option ℕ
  pub monthly_agent_run_limit : Option ℕ
  pub max_systems : Option ℕ
  pub max_users : Option ℕ
  pub max_concurrent_agents : Option ℕ

abbrev pub free_defaults : PlanDefaults
free_defaults = record {
  plan_tier = "free";
  monthly_token_limit = some 500000;
  monthly_agent_run_limit = some 20;
  max_systems = some 3;
  max_users = some 10;
  max_concurrent_agents = some 1;
}

abbrev pub pro_defaults : PlanDefaults
pro_defaults = record {
  plan_tier = "pro";
  monthly_token_limit = some 5000000;
  monthly_agent_run_limit = some 200;
  max_systems = some 20;
  max_users = some 50;
  max_concurrent_agents = some 3;
}

abbrev pub enterprise_defaults : PlanDefaults
enterprise_defaults = record {
  plan_tier = "enterprise";
  monthly_token_limit = none;
  monthly_agent_run_limit = none;
  max_systems = none;
  max_users = none;
  max_concurrent_agents = none;
}

-- `_TIER_DEFAULTS.get(tier)`
unfoldable pub tier_defaults : String → Option PlanDefaults
tier_defaults tier =
    if str_eq tier "free"
    then some free_defaults
    else if str_eq tier "pro"
    then some pro_defaults
    else if str_eq tier "enterprise"
    then some enterprise_defaults
    else none

-- `get_plan`; `company_id` is unique in the table.
unfoldable pub get_plan : ℕ → Db → Option CompanyPlan
get_plan company_id db = get CompanyPlan.company_id company_id db.plans

unfoldable pub effective_limits : Option CompanyPlan → PlanDefaults
effective_limits none = free_defaults
effective_limits (some plan) =
    let defaults = or_else (tier_defaults plan.plan_tier) free_defaults in
    record {
      plan_tier = plan.plan_tier;
      monthly_token_limit = or_keep plan.monthly_token_limit defaults.monthly_token_limit;
      monthly_agent_run_limit =
          or_keep plan.monthly_agent_run_limit defaults.monthly_agent_run_limit;
      max_systems = or_keep plan.max_systems defaults.max_systems;
      max_users = or_keep plan.max_users defaults.max_users;
      max_concurrent_agents = or_keep plan.max_concurrent_agents defaults.max_concurrent_agents;
    }

pub record QuotaStatus : Type 0 where
  pub plan_tier : String
  pub tokens_used : ℕ
  pub tokens_limit : Option ℕ
  pub tokens_pct : Option ℕ
  pub tokens_warning : Bool
  pub tokens_exceeded : Bool
  pub runs_used : ℕ
  pub runs_limit : Option ℕ
  pub runs_pct : Option ℕ
  pub runs_warning : Bool
  pub runs_exceeded : Bool
  pub max_systems : Option ℕ
  pub max_users : Option ℕ
  pub max_concurrent_agents : Option ℕ
  pub estimated_cost_usd : ℕ

-- `coalesce(sum(column), 0)` over the rows that a query selects.
unfoldable pub sum_where :
    (CompanyTokenUsage → Bool) → (CompanyTokenUsage → ℕ) → List CompanyTokenUsage → ℕ
sum_where p f [] = 0
sum_where p f (u ∷ us) = if p u then f u + sum_where p f us else sum_where p f us

abbrev pub in_period : ℕ → ℕ → CompanyTokenUsage → Bool
in_period company_id start u = (u.company_id == company_id) && leb start u.usage_date

abbrev pub run_in_period : ℕ → ℕ → AgentRun → Bool
run_in_period company_id start r = (r.company_id == company_id) && leb start r.created_at

unfoldable pub tokens_used_since : ℕ → ℕ → Db → ℕ
unfolding sum_where
tokens_used_since company_id start db =
    sum_where (in_period company_id start) CompanyTokenUsage.prompt_tokens db.token_usage
    + sum_where (in_period company_id start) CompanyTokenUsage.completion_tokens db.token_usage

unfoldable pub runs_used_since : ℕ → ℕ → Db → ℕ
runs_used_since company_id start db = count (run_in_period company_id start) db.agent_runs

-- `pct_value is not None and pct_value >= bound`
abbrev pub reaches : Option ℕ → ℕ → Bool
reaches none bound = false
reaches (some p) bound = leb bound p

module _ (platform : Platform) where
  -- The nested `pct`, in tenths of a percent.
  unfoldable pub pct : ℕ → Option ℕ → Option ℕ
  pct used none = none
  pct used (some limit) = if ltb 0 limit then some (platform.round_pct used limit) else some 1000

  unfoldable pub get_quota_status : ℕ → ℕ → Db → QuotaStatus
  unfolding get_plan effective_limits tokens_used_since runs_used_since pct
  get_quota_status now company_id db =
      let limits = effective_limits (get_plan company_id db) in
      let start = platform.month_start now in
      let tokens_used = tokens_used_since company_id start db in
      let runs_used = runs_used_since company_id start db in
      let tokens_pct = pct tokens_used limits.monthly_token_limit in
      let runs_pct = pct runs_used limits.monthly_agent_run_limit in
      record {
        plan_tier = limits.plan_tier;
        tokens_used = tokens_used;
        tokens_limit = limits.monthly_token_limit;
        tokens_pct = tokens_pct;
        tokens_warning = reaches tokens_pct 800;
        tokens_exceeded = reaches tokens_pct 1000;
        runs_used = runs_used;
        runs_limit = limits.monthly_agent_run_limit;
        runs_pct = runs_pct;
        runs_warning = reaches runs_pct 800;
        runs_exceeded = reaches runs_pct 1000;
        max_systems = limits.max_systems;
        max_users = limits.max_users;
        max_concurrent_agents = limits.max_concurrent_agents;
        estimated_cost_usd =
            sum_where (in_period company_id start) (λ u. or_else u.total_cost_usd 0) db.token_usage;
      }

  unfoldable pub assert_agent_run_allowed : ℕ → ℕ → Db → Result (Unit {0})
  unfolding get_quota_status
  assert_agent_run_allowed now company_id db =
      let qs = get_quota_status now company_id db in
      if qs.runs_exceeded
      then err (http 429 runs_exceeded)
      else if qs.tokens_exceeded
      then err (http 429 tokens_exceeded)
      else ok tt

-- The arguments of `upsert_plan`; `none` is Python's None.
pub record PlanChange : Type 0 where
  pub plan_tier : String
  pub monthly_token_limit : Option ℕ
  pub monthly_agent_run_limit : Option ℕ
  pub max_systems : Option ℕ
  pub max_users : Option ℕ
  pub max_concurrent_agents : Option ℕ
  pub override_reason : Option String

abbrev pub new_plan : ℕ → CompanyPlan
new_plan company_id = record {
  company_id = company_id;
  plan_tier = "free";
  monthly_token_limit = none;
  monthly_agent_run_limit = none;
  max_systems = none;
  max_users = none;
  max_concurrent_agents = none;
  override_reason = none;
}

unfoldable pub change_plan : PlanChange → CompanyPlan → CompanyPlan
change_plan c plan = record plan {
  plan_tier = c.plan_tier;
  monthly_token_limit = or_keep c.monthly_token_limit plan.monthly_token_limit;
  monthly_agent_run_limit = or_keep c.monthly_agent_run_limit plan.monthly_agent_run_limit;
  max_systems = or_keep c.max_systems plan.max_systems;
  max_users = or_keep c.max_users plan.max_users;
  max_concurrent_agents = or_keep c.max_concurrent_agents plan.max_concurrent_agents;
  override_reason = or_keep c.override_reason plan.override_reason;
}

-- Writes the changed plan over the company's row, or adds one.
abbrev pub store_plan : PlanChange → ℕ → Option CompanyPlan → Db → Db
store_plan c company_id none db = record db {
  plans = change_plan c (new_plan company_id) ∷ db.plans;
}
store_plan c company_id (some plan) db = record db {
  plans = replace CompanyPlan.company_id (change_plan c plan) db.plans;
}

unfoldable pub upsert_plan : ℕ → PlanChange → Action Db CompanyPlan
unfolding tier_defaults get_plan change_plan
upsert_plan company_id c db =
    if is_none (tier_defaults c.plan_tier) then (err (http 400 unknown_tier), db) else (
      ok (change_plan c (or_else (get_plan company_id db) (new_plan company_id))),
      store_plan c company_id (get_plan company_id db) db,
    )
