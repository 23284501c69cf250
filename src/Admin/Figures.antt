-- ===== src/Admin/Figures.antt =====
-- The figures of the platform's administration beside those of the quota check.
use kaats_v.Base.{
  ℕ, ◌+◌, ◌≡◌, refl, ◌∙◌, Bool, Option, none, some, List, [], ◌∷◌, map, String, arith, ◌==◌, select,
  count, get, All, count_of-group_counts, count_of-group_sums, sum_at, Bool-cases, inl, inr,
}
use kaats_v.Schema.{Db, Enterprise, Company, AgentRun, CompanyTokenUsage}
use kaats_v.Quota.{
  Platform, sum_where, in_period, run_in_period, tokens_used_since, runs_used_since,
  get_quota_status, effective_limits, get_plan,
}
use kaats_v.Reports.{str_leb}
use kaats_v.Admin.{
  id_key, usage_since, run_since, company_tokens, token_sq, run_sq, CompanyAdminRead, stats_row,
  joined_row, company_stats, insert_by_name, sort_by_name, wanted_company, list_all_companies,
  tier_or_free,
}

tokens-add :
    (i ms : ℕ) (us : List CompanyTokenUsage)
    → sum_at id_key i (map company_tokens (select (usage_since ms) us))
      ≡ sum_where (in_period i ms) CompanyTokenUsage.prompt_tokens us
        + sum_where (in_period i ms) CompanyTokenUsage.completion_tokens us
unfolding sum_at select sum_where
tokens-add i ms [] = refl
tokens-add i ms (u ∷ us) = ground (arith, tokens-add i ms us)

runs-add :
    (i ms : ℕ) (rs : List AgentRun)
    → count (λ k. k == i) (map AgentRun.company_id (select (run_since ms) rs))
      ≡ count (run_in_period i ms) rs
unfolding select count
runs-add i ms [] = refl
runs-add i ms (r ∷ rs) = ground (arith, runs-add i ms rs)

module _ (platform : Platform) (now : ℕ) (db : Db) where
  abbrev ms : ℕ
  ms = platform.month_start now

  -- The row shows the figures of the quota check.
  abbrev pub Agrees : CompanyAdminRead → Type 0
  Agrees r =
      let q = get_quota_status platform now r.id db in
      (r.plan_tier ≡ q.plan_tier)
      × (r.tokens_this_month ≡ q.tokens_used)
      × (r.runs_this_month ≡ q.runs_used)

  tier : (plan : Option _) → tier_or_free plan ≡ (effective_limits plan).plan_tier
  unfolding effective_limits
  tier none = refl
  tier (some plan) = refl

  stats_row-Agrees : (c : Company) (e : Enterprise) → Agrees (stats_row ms db c e)
  unfolding get_quota_status token_sq run_sq tokens_used_since runs_used_since
  stats_row-Agrees c e = (
    tier (get_plan c.id db),
    count_of-group_sums id_key c.id (map company_tokens (select (usage_since ms) db.token_usage))
        ∙ tokens-add c.id ms db.token_usage,
    count_of-group_counts id_key c.id
          (map AgentRun.company_id (select (run_since ms) db.agent_runs))
        ∙ runs-add c.id ms db.agent_runs,
  )

  company_stats-Agrees : (cs : List Company) → All Agrees (company_stats ms db cs)
  unfolding company_stats
  company_stats-Agrees [] = tt
  company_stats-Agrees (c ∷ cs) =
      joined c (get Enterprise.id c.enterprise_id db.enterprises) (company_stats ms db cs)
        (company_stats-Agrees cs)
    where
      joined :
          (d : Company) (o : Option Enterprise) (rows : List CompanyAdminRead)
          → All Agrees rows
          → All Agrees (joined_row ms db d o rows)
      joined d none rows a = a
      joined d (some e) rows a = (stats_row-Agrees d e, a)

All-select :
    (P : CompanyAdminRead → Type 0) (p : CompanyAdminRead → Bool) (rs : List CompanyAdminRead)
    → All P rs
    → All P (select p rs)
unfolding select
All-select P p [] a = tt
All-select P p (r ∷ rs) a = elim (Bool-cases (p r)) [
  | inl e ↦ rw e (a.0, All-select P p rs a.1)
  | inr e ↦ rw e (All-select P p rs a.1)
]

All-insert_by_name :
    (P : CompanyAdminRead → Type 0) (r : CompanyAdminRead) (rs : List CompanyAdminRead)
    → P r
    → All P rs
    → All P (insert_by_name r rs)
unfolding insert_by_name
All-insert_by_name P r [] p a = (p, tt)
All-insert_by_name P r (x ∷ xs) p a = elim (Bool-cases (str_leb r.name x.name)) [
  | inl e ↦ rw e (p, a)
  | inr e ↦ rw e (a.0, All-insert_by_name P r xs p a.1)
]

All-sort_by_name :
    (P : CompanyAdminRead → Type 0) (rs : List CompanyAdminRead)
    → All P rs
    → All P (sort_by_name rs)
unfolding sort_by_name
All-sort_by_name P [] a = tt
All-sort_by_name P (r ∷ rs) a =
    All-insert_by_name P r (sort_by_name rs) a.0 (All-sort_by_name P rs a.1)

-- Whatever the filters, each company that the administration lists is shown with the tier, the
-- tokens and the runs of this month that the quota check of that company finds at the same time.
pub list_all_companies-get_quota_status :
    (platform : Platform) (now : ℕ) (enterprise_id : Option ℕ) (plan_tier : Option String)
    (active_only : Bool) (db : Db)
    → All
        (Agrees platform now db)
        (list_all_companies (platform.month_start now) enterprise_id plan_tier active_only db)
unfolding list_all_companies
list_all_companies-get_quota_status platform now enterprise_id plan_tier active_only db =
    let P = Agrees platform now db in
    let rows = company_stats (platform.month_start now) db db.companies in
    let p = wanted_company enterprise_id plan_tier active_only in
    All-sort_by_name P (select p rows)
      (All-select P p rows (company_stats-Agrees platform now db db.companies))
