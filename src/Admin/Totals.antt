-- ===== src/Admin/Totals.antt =====
-- The totals of the platform beside the figures of its companies.
use kaats_v.Base.{
  ℕ, ◌+◌, ◌≤◌, ◌≡◌, refl, Bool, true, Option, List, [], ◌∷◌, map, String, arith, select, length,
  length-select, get, count_of, sum_values, sum_over, sum_over-le, sum_values-group_counts,
  sum_values-group_sums, distinct_keys, Bool-cases, Option-cases, inl, inr,
}
use kaats_v.Schema.{Db, Enterprise, Company, AgentRun, CompanyTokenUsage}
use kaats_v.Reports.{str_leb}
use kaats_v.Admin.{
  id_key, usage_since, run_since, company_tokens, token_sq, run_sq, CompanyAdminRead, stats_row,
  company_stats, insert_by_name, sort_by_name, wanted_company, list_all_companies, sum_tokens,
  get_platform_overview,
}

-- A figure, added up over the rows.
unfoldable pub total : (CompanyAdminRead → ℕ) → List CompanyAdminRead → ℕ
total f [] = 0
total f (r ∷ rs) = f r + total f rs

total-insert :
    (f : CompanyAdminRead → ℕ) (r : CompanyAdminRead) (rs : List CompanyAdminRead)
    → total f (insert_by_name r rs) ≡ f r + total f rs
unfolding total insert_by_name
total-insert f r [] = refl
total-insert f r (x ∷ xs) = elim (Bool-cases (str_leb r.name x.name)) [
  | inl e ↦ rw e refl
  | inr e ↦ rw e (omega (arith, total-insert f r xs))
]

total-sort :
    (f : CompanyAdminRead → ℕ) (rs : List CompanyAdminRead) → total f (sort_by_name rs) ≡ total f rs
unfolding total sort_by_name
total-sort f [] = refl
total-sort f (r ∷ rs) = omega (arith, total-insert f r (sort_by_name rs), total-sort f rs)

total-select :
    (f : CompanyAdminRead → ℕ) (p : CompanyAdminRead → Bool) (rs : List CompanyAdminRead)
    → total f (select p rs) ≤ total f rs
unfolding total select
total-select f p [] = omega arith
total-select f p (r ∷ rs) = ground (arith, total-select f p rs)

abbrev pub HasDistinctIds : Db → Type 0
HasDistinctIds db = distinct_keys id_key (map Company.id db.companies) ≡ true

module _ (ms : ℕ) (db : Db) where
  -- A figure that each row takes from a dictionary.
  total-company_stats :
      (f : CompanyAdminRead → ℕ) (m : List (ℕ × ℕ))
      → ((c : Company) (e : Enterprise) → f (stats_row ms db c e) ≡ count_of id_key c.id m)
      → (cs : List Company)
      → total f (company_stats ms db cs) ≤ sum_over id_key (map Company.id cs) m
  unfolding total company_stats sum_over
  total-company_stats f m h [] = omega arith
  total-company_stats f m h (c ∷ cs) =
      elim (Option-cases (get Enterprise.id c.enterprise_id db.enterprises)) [
        | inl e ↦ rw e (omega (arith, total-company_stats f m h cs))
        | inr (ent, e) ↦ rw e (omega (arith, h c ent, total-company_stats f m h cs))
      ]

  total-list_all_companies :
      (f : CompanyAdminRead → ℕ) (m : List (ℕ × ℕ)) (enterprise_id : Option ℕ)
      (plan_tier : Option String) (active_only : Bool)
      → ((c : Company) (e : Enterprise) → f (stats_row ms db c e) ≡ count_of id_key c.id m)
      → HasDistinctIds db
      → total f (list_all_companies ms enterprise_id plan_tier active_only db) ≤ sum_values id_key m
  unfolding list_all_companies
  total-list_all_companies f m enterprise_id plan_tier active_only h d =
      let rows = company_stats ms db db.companies in
      let p = wanted_company enterprise_id plan_tier active_only in
      omega (
        arith,
        total-sort f (select p rows),
        total-select f p rows,
        total-company_stats f m h db.companies,
        sum_over-le id_key (map Company.id db.companies) m d,
      )

length-runs : (rs : List AgentRun) → length (map AgentRun.company_id rs) ≡ length rs
length-runs [] = refl
length-runs (r ∷ rs) = omega (arith, length-runs rs)

sum_values-tokens :
    (us : List CompanyTokenUsage) → sum_values id_key (map company_tokens us) ≡ sum_tokens us
sum_values-tokens [] = refl
sum_values-tokens (u ∷ us) = omega (arith, sum_values-tokens us)

-- Where no two companies have the same id, the runs and the tokens of the listed companies, added
-- up, are within the totals that the overview of the platform shows for the same month, whatever
-- the filters of the list.
pub list_all_companies-get_platform_overview :
    (ms : ℕ) (enterprise_id : Option ℕ) (plan_tier : Option String) (active_only : Bool) (db : Db)
    → HasDistinctIds db
    → let rows = list_all_companies ms enterprise_id plan_tier active_only db in
      let overview = get_platform_overview ms db in
      (total CompanyAdminRead.runs_this_month rows ≤ overview.agent_runs_this_month)
      × (total CompanyAdminRead.tokens_this_month rows ≤ overview.tokens_this_month)
unfolding get_platform_overview run_sq token_sq
list_all_companies-get_platform_overview ms enterprise_id plan_tier active_only db d =
    let runs = select (run_since ms) db.agent_runs in
    let usage = select (usage_since ms) db.token_usage in
    (
      omega (
        arith,
        total-list_all_companies ms db CompanyAdminRead.runs_this_month (run_sq ms db) enterprise_id
            plan_tier active_only (λ c e. refl) d,
        sum_values-group_counts id_key (map AgentRun.company_id runs),
        length-runs runs,
        length-select (run_since ms) db.agent_runs,
      ),
      omega (
        arith,
        total-list_all_companies ms db CompanyAdminRead.tokens_this_month (token_sq ms db)
            enterprise_id plan_tier active_only (λ c e. refl) d,
        sum_values-group_sums id_key (map company_tokens usage),
        sum_values-tokens usage,
      ),
    )
