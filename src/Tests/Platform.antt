-- ===== src/Tests/Platform.antt =====
-- A platform with two companies of one enterprise.
use kaats_v.Base.{
  has_key, distinct_keys, ◌≤◌, refl, true, false, none, some, [], ◌∷◌, arith, All, count,
}
use kaats_v.Schema.{Db, Enterprise, Company}
use kaats_v.Admin.{CompanyAdminRead, list_all_companies, get_platform_overview}
use kaats_v.Admin.Figures.{Agrees, list_all_companies-get_quota_status}
use kaats_v.Admin.Totals.{total, list_all_companies-get_platform_overview}
use kaats_v.Tenants.{add_company, serve_all}
use kaats_v.Tenants.Slugs.{UniqueSlugs, serve_all-UniqueSlugs}
use kaats_v.Tests.Data.{platform, two_companies}

abbrev kiu : Enterprise
kiu = record { id = 5; name = "KIU"; slug = "kiu"; is_active = true }

abbrev acme : Company
acme = record { id = 10; enterprise_id = 5; name = "Acme"; slug = "acme"; is_active = true }

abbrev zeta : Company
zeta = record acme { id = 20; name = "Zeta"; slug = "zeta" }

abbrev staffed : Db
staffed = record two_companies { enterprises = kiu ∷ []; companies = zeta ∷ acme ∷ [] }

list_all_companies-get_quota_status_example :
    All
      (Agrees platform 40 staffed)
      (list_all_companies (platform.month_start 40) none none true staffed)
list_all_companies-get_quota_status_example =
    list_all_companies-get_quota_status platform 40 none none true staffed

list_all_companies-get_platform_overview_example :
    let rows = list_all_companies 30 (some 5) none false staffed in
    let overview = get_platform_overview 30 staffed in
    (total CompanyAdminRead.runs_this_month rows ≤ overview.agent_runs_this_month)
    × (total CompanyAdminRead.tokens_this_month rows ≤ overview.tokens_this_month)
unfolding distinct_keys has_key
list_all_companies-get_platform_overview_example =
    list_all_companies-get_platform_overview 30 (some 5) none false staffed refl

empty-UniqueSlugs : UniqueSlugs two_companies
unfolding count
empty-UniqueSlugs = λ slug. (omega arith, omega arith)

serve_all-UniqueSlugs_example : UniqueSlugs (
    serve_all
      (add_company (record { enterprise_id = 5; name = "Acme"; slug = "acme" })
        ∷ add_company (record { enterprise_id = 5; name = "Other"; slug = "acme" })
        ∷ [])
      two_companies)
serve_all-UniqueSlugs_example =
    serve_all-UniqueSlugs
      (add_company (record { enterprise_id = 5; name = "Acme"; slug = "acme" })
        ∷ add_company (record { enterprise_id = 5; name = "Other"; slug = "acme" })
        ∷ [])
      two_companies empty-UniqueSlugs
