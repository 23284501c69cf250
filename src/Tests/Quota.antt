-- ===== src/Tests/Quota.antt =====
-- The quota check on small plans.
use kaats_v.Base.{◌≡◌, refl, some, [], ◌∷◌, ok, get, count}
use kaats_v.Schema.{Db, CompanyPlan}
use kaats_v.Quota.{
  effective_limits, get_plan, tokens_used_since, runs_used_since, sum_where, pct, get_quota_status,
  assert_agent_run_allowed, new_plan,
}
use kaats_v.Quota.Enforcement.{Below, assert_agent_run_allowed-Below}
use kaats_v.Tests.Data.{platform, two_companies}

-- Company 20 pays for 3 runs and 1000 tokens.
abbrev small_plan : CompanyPlan
small_plan = record (new_plan 20) {
  monthly_token_limit = some 10000;
  monthly_agent_run_limit = some 3;
}

abbrev small : Db
small = record two_companies { plans = small_plan ∷ [] }

allowed : assert_agent_run_allowed platform 40 20 small ≡ ok tt
unfolding assert_agent_run_allowed get_quota_status get_plan effective_limits tokens_used_since
    runs_used_since sum_where count pct get
allowed = refl

assert_agent_run_allowed-Below_example :
    Below platform (runs_used_since 20 30 small) (some 3)
    × Below platform (tokens_used_since 20 30 small) (some 10000)
unfolding get_plan effective_limits get
assert_agent_run_allowed-Below_example = assert_agent_run_allowed-Below platform 40 20 small allowed
