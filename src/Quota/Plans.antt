-- ===== src/Quota/Plans.antt =====
-- The limits that a plan change leaves in force.
use kaats_v.Base.{
  ℕ, ◌≡◌, inl, inr, refl, Option, none, some, arith, or_else, or_keep, get, get-key, get-replace,
  Option-cases,
}
use kaats_v.Schema.{Db, CompanyPlan}
use kaats_v.Quota.{
  PlanDefaults, tier_defaults, get_plan, effective_limits, PlanChange, new_plan, change_plan,
  upsert_plan,
}

get_plan-upsert_plan :
    (company_id : ℕ) (c : PlanChange) (db : Db) (defaults : PlanDefaults)
    → tier_defaults c.plan_tier ≡ some defaults
    → get_plan company_id (upsert_plan company_id c db).1
      ≡ some (change_plan c (or_else (get_plan company_id db) (new_plan company_id)))
unfolding get_plan upsert_plan change_plan get
get_plan-upsert_plan company_id c db defaults t =
    elim (Option-cases (get CompanyPlan.company_id company_id db.plans)) [
      | inl e ↦ ground arith
      | inr (plan, e) ↦
          let key : plan.company_id ≡ company_id =
            get-key CompanyPlan.company_id company_id plan db.plans e in
          ground (
            arith,
            get-replace CompanyPlan.company_id company_id (change_plan c plan) plan db.plans,
          )
    ]

or_keep_assoc {ℓ} :
    {A : Type ℓ} (a b c : Option A) → or_keep (or_keep a b) c ≡ or_keep a (or_keep b c)
or_keep_assoc none b c = refl
or_keep_assoc (some x) b c = refl

-- After a plan change that is accepted, each limit in force is the one given, else the one that
-- the company's row had, else the default of the new tier; an unknown tier is refused with 400.
pub upsert_plan-effective_limits :
    (company_id : ℕ) (c : PlanChange) (db : Db) (defaults : PlanDefaults)
    → tier_defaults c.plan_tier ≡ some defaults
    → let old = or_else (get_plan company_id db) (new_plan company_id) in
      let limits = effective_limits (get_plan company_id (upsert_plan company_id c db).1) in
      (limits.plan_tier ≡ c.plan_tier)
      × (limits.monthly_token_limit
          ≡ or_keep c.monthly_token_limit
              (or_keep old.monthly_token_limit defaults.monthly_token_limit))
      × (limits.monthly_agent_run_limit
          ≡ or_keep c.monthly_agent_run_limit
              (or_keep old.monthly_agent_run_limit defaults.monthly_agent_run_limit))
      × (limits.max_systems ≡ or_keep c.max_systems (or_keep old.max_systems defaults.max_systems))
      × (limits.max_users ≡ or_keep c.max_users (or_keep old.max_users defaults.max_users))
      × (limits.max_concurrent_agents
          ≡ or_keep c.max_concurrent_agents
              (or_keep old.max_concurrent_agents defaults.max_concurrent_agents))
unfolding effective_limits change_plan
upsert_plan-effective_limits company_id c db defaults t =
    let old = or_else (get_plan company_id db) (new_plan company_id) in
    rw (get_plan-upsert_plan company_id c db defaults t, t)
      (
        refl,
        or_keep_assoc c.monthly_token_limit old.monthly_token_limit defaults.monthly_token_limit,
        or_keep_assoc c.monthly_agent_run_limit old.monthly_agent_run_limit
            defaults.monthly_agent_run_limit,
        or_keep_assoc c.max_systems old.max_systems defaults.max_systems,
        or_keep_assoc c.max_users old.max_users defaults.max_users,
        or_keep_assoc c.max_concurrent_agents old.max_concurrent_agents
            defaults.max_concurrent_agents,
      )
