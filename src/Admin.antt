-- ===== src/Admin.antt =====
-- The administration of the platform: backend/app/routers/admin.py.
pub mod Figures
pub mod Totals
use kaats_v.Base.{
  ℕ, ◌+◌, Bool, true, false, ◌&&◌, Option, none, some, List, [], ◌∷◌, map, String, leb, ◌==◌,
  if◌then◌else◌, select, count, length, get, ==_iff, Key, group_counts, group_sums, count_of,
  or_raise, http, company_not_found, Action, gets, ◌>>=◌, ◌>>◌, pure,
}
use kaats_v.Schema.{
  Db, Enterprise, Company, CompanyPlan, UserRole, System, AgentRun, CompanyTokenUsage, plan_updated,
}
use kaats_v.Quota.{get_plan, PlanChange, upsert_plan}
use kaats_v.Onboarding.{audit}
use kaats_v.Cycles.Execution.{distinct}
use kaats_v.Reports.{str_leb}
use text.Mathlib.Text.{◌==◌ as str_eq}

abbrev pub id_key : Key ℕ
id_key = record { same = λ a b. a == b; same_iff = λ a b. ==_iff a b }

-- `usage_date >= ms` and `created_at >= ms`
abbrev pub usage_since : ℕ → CompanyTokenUsage → Bool
usage_since ms u = leb ms u.usage_date

abbrev pub run_since : ℕ → AgentRun → Bool
run_since ms r = leb ms r.created_at

abbrev pub live_system : System → Bool
live_system s = if s.is_deleted then false else true

abbrev pub tokens_of : CompanyTokenUsage → ℕ
tokens_of u = u.prompt_tokens + u.completion_tokens

abbrev pub users_in : ℕ → List UserRole → List ℕ
users_in i [] = []
users_in i (r ∷ rs) = elim r.company_id [
  | none ↦ users_in i rs
  | some c ↦ if c == i then r.user_id ∷ users_in i rs else users_in i rs
]

-- `user_sq` at a company: the different users of its role rows.
unfoldable pub user_count : ℕ → Db → ℕ
user_count i db = length (distinct (users_in i db.user_roles))

-- `system_sq`
unfoldable pub system_sq : Db → List (ℕ × ℕ)
system_sq db = group_counts id_key (map System.company_id (select live_system db.systems))

abbrev pub company_tokens : CompanyTokenUsage → ℕ × ℕ
company_tokens u = (u.company_id, tokens_of u)

-- `token_sq`
unfoldable pub token_sq : ℕ → Db → List (ℕ × ℕ)
token_sq ms db = group_sums id_key (map company_tokens (select (usage_since ms) db.token_usage))

-- `run_sq`
unfoldable pub run_sq : ℕ → Db → List (ℕ × ℕ)
run_sq ms db = group_counts id_key (map AgentRun.company_id (select (run_since ms) db.agent_runs))

-- `coalesce(plan_tier, "free")`
abbrev pub tier_or_free : Option CompanyPlan → String
tier_or_free none = "free"
tier_or_free (some plan) = plan.plan_tier

pub record CompanyAdminRead : Type 0 where
  pub id : ℕ
  pub name : String
  pub slug : String
  pub enterprise_id : ℕ
  pub enterprise_name : String
  pub is_active : Bool
  pub plan_tier : String
  pub user_count : ℕ
  pub system_count : ℕ
  pub tokens_this_month : ℕ
  pub runs_this_month : ℕ

abbrev pub stats_row : ℕ → Db → Company → Enterprise → CompanyAdminRead
stats_row ms db c e = record {
  id = c.id;
  name = c.name;
  slug = c.slug;
  enterprise_id = c.enterprise_id;
  enterprise_name = e.name;
  is_active = c.is_active;
  plan_tier = tier_or_free (get_plan c.id db);
  user_count = user_count c.id db;
  system_count = count_of id_key c.id (system_sq db);
  tokens_this_month = count_of id_key c.id (token_sq ms db);
  runs_this_month = count_of id_key c.id (run_sq ms db);
}

-- A company whose enterprise is not stored has no row: the join is an inner one.
abbrev pub joined_row :
    ℕ → Db → Company → Option Enterprise → List CompanyAdminRead → List CompanyAdminRead
joined_row ms db c none rows = rows
joined_row ms db c (some e) rows = stats_row ms db c e ∷ rows

-- `_company_stats_stmt`
unfoldable pub company_stats : ℕ → Db → List Company → List CompanyAdminRead
company_stats ms db [] = []
company_stats ms db (c ∷ cs) =
    joined_row ms db c (get Enterprise.id c.enterprise_id db.enterprises) (company_stats ms db cs)

unfoldable pub insert_by_name : CompanyAdminRead → List CompanyAdminRead → List CompanyAdminRead
insert_by_name r [] = r ∷ []
insert_by_name r (x ∷ xs) = if str_leb r.name x.name then r ∷ x ∷ xs else x ∷ insert_by_name r xs

-- `order_by(Company.name)`
unfoldable pub sort_by_name : List CompanyAdminRead → List CompanyAdminRead
sort_by_name [] = []
sort_by_name (r ∷ rs) = insert_by_name r (sort_by_name rs)

abbrev pub enterprise_is : Option ℕ → CompanyAdminRead → Bool
enterprise_is none r = true
enterprise_is (some i) r = r.enterprise_id == i

abbrev pub tier_is : Option String → CompanyAdminRead → Bool
tier_is none r = true
tier_is (some t) r = str_eq r.plan_tier t

abbrev pub wanted_company : Option ℕ → Option String → Bool → CompanyAdminRead → Bool
wanted_company enterprise_id plan_tier active_only r =
    enterprise_is enterprise_id r
    && ((if active_only then r.is_active else true) && tier_is plan_tier r)

-- `ms` is what `_month_start` returns.
unfoldable pub list_all_companies : ℕ → Option ℕ → Option String → Bool → Db → List CompanyAdminRead
list_all_companies ms enterprise_id plan_tier active_only db =
    sort_by_name (
      select (wanted_company enterprise_id plan_tier active_only)
        (company_stats ms db db.companies))

pub record PlatformOverview : Type 0 where
  pub total_enterprises : ℕ
  pub active_enterprises : ℕ
  pub total_companies : ℕ
  pub active_companies : ℕ
  pub total_users : ℕ
  pub agent_runs_this_month : ℕ
  pub tokens_this_month : ℕ

abbrev pub sum_tokens : List CompanyTokenUsage → ℕ
sum_tokens [] = 0
sum_tokens (u ∷ us) = tokens_of u + sum_tokens us

unfoldable pub get_platform_overview : ℕ → Db → PlatformOverview
get_platform_overview ms db = record {
  total_enterprises = length db.enterprises;
  active_enterprises = count Enterprise.is_active db.enterprises;
  total_companies = length db.companies;
  active_companies = count Company.is_active db.companies;
  total_users = length (distinct (map UserRole.user_id db.user_roles));
  agent_runs_this_month = count (run_since ms) db.agent_runs;
  tokens_this_month = sum_tokens (select (usage_since ms) db.token_usage);
}

-- `resource_id` is the key of the plan's row, which the row here leaves out.
unfoldable pub update_company_plan : ℕ → ℕ → PlanChange → Action Db CompanyPlan
update_company_plan actor company_id body = do
  found ← gets (λ (db : Db). get Company.id company_id db.companies)
  company ← or_raise found (http 404 company_not_found)
  plan ← upsert_plan company_id body
  audit plan_updated (some actor) (some company_id) none
  pure plan
