-- ===== src/Tenants.antt =====
-- Enterprises and companies: TenantService of backend/app/services/tenant_service.py. The columns
-- for settings, industry, export format and directory are left out of the rows.
pub mod Slugs
use kaats_v.Base.{
  ℕ, ◌+◌, Bool, true, false, ◌&&◌, Option, none, some, List, [], ◌∷◌, String, ◌==◌, if◌then◌else◌,
  or_else, select, any, get, replace, Result, http, enterprise_not_found, company_not_found,
  slug_taken, Action, gets, modify, or_raise, raise_if, commit, ◌>>=◌, ◌>>◌, pure,
}
use kaats_v.Schema.{Db, Enterprise, Company}
use text.Mathlib.Text.{◌==◌ as str_eq}

-- The order by name is left open.
unfoldable pub list_enterprises : Db → List Enterprise
list_enterprises db = select Enterprise.is_active db.enterprises

unfoldable pub get_enterprise : ℕ → Action Db Enterprise
get_enterprise enterprise_id = do
  found ← gets (λ (db : Db). get Enterprise.id enterprise_id db.enterprises)
  or_raise found (http 404 enterprise_not_found)

pub record EnterpriseCreate : Type 0 where
  pub name : String
  pub slug : String

abbrev pub new_enterprise : ℕ → EnterpriseCreate → Enterprise
new_enterprise id body = record { id = id; name = body.name; slug = body.slug; is_active = true }

abbrev pub enterprise_slug_is : String → Enterprise → Bool
enterprise_slug_is slug e = str_eq e.slug slug

unfoldable pub create_enterprise : EnterpriseCreate → Action Db Enterprise
create_enterprise body = do
  existing ← gets (λ (db : Db). any (enterprise_slug_is body.slug) db.enterprises)
  raise_if existing (http 409 slug_taken)
  id ← gets (λ (db : Db). db.next_id)
  modify (λ db. record db {
    enterprises = new_enterprise id body ∷ db.enterprises;
    next_id = db.next_id + 1;
  })
  pure (new_enterprise id body)

-- No update has a slug.
pub record TenantUpdate : Type 0 where
  pub name : Option String
  pub is_active : Option Bool

abbrev pub updated_enterprise : TenantUpdate → Enterprise → Enterprise
updated_enterprise body e = record e {
  name = or_else body.name e.name;
  is_active = or_else body.is_active e.is_active;
}

unfoldable pub update_enterprise : ℕ → TenantUpdate → Action Db Enterprise
update_enterprise enterprise_id body = do
  e ← get_enterprise enterprise_id
  modify (λ db. record db {
    enterprises = replace Enterprise.id (updated_enterprise body e) db.enterprises;
  })
  pure (updated_enterprise body e)

abbrev pub in_enterprise : Option ℕ → Company → Bool
in_enterprise none c = true
in_enterprise (some i) c = c.enterprise_id == i

unfoldable pub list_companies : Option ℕ → Db → List Company
list_companies enterprise_id db =
    select (λ c. c.is_active && in_enterprise enterprise_id c) db.companies

unfoldable pub get_company : ℕ → Action Db Company
get_company company_id = do
  found ← gets (λ (db : Db). get Company.id company_id db.companies)
  or_raise found (http 404 company_not_found)

pub record CompanyCreate : Type 0 where
  pub enterprise_id : ℕ
  pub name : String
  pub slug : String

abbrev pub new_company : ℕ → CompanyCreate → Company
new_company id body = record {
  id = id;
  enterprise_id = body.enterprise_id;
  name = body.name;
  slug = body.slug;
  is_active = true;
}

abbrev pub company_slug_is : String → Company → Bool
company_slug_is slug c = str_eq c.slug slug

unfoldable pub create_company : CompanyCreate → Action Db Company
create_company body = do
  existing ← gets (λ (db : Db). any (company_slug_is body.slug) db.companies)
  raise_if existing (http 409 slug_taken)
  id ← gets (λ (db : Db). db.next_id)
  modify
      (λ db. record db { companies = new_company id body ∷ db.companies; next_id = db.next_id + 1 })
  pure (new_company id body)

abbrev pub updated_company : TenantUpdate → Company → Company
updated_company body c = record c {
  name = or_else body.name c.name;
  is_active = or_else body.is_active c.is_active;
}

unfoldable pub update_company : ℕ → TenantUpdate → Action Db Company
update_company company_id body = do
  c ← get_company company_id
  modify (λ db. record db { companies = replace Company.id (updated_company body c) db.companies })
  pure (updated_company body c)

pub data Request : Type 0 where
  add_enterprise : EnterpriseCreate → Request
  change_enterprise : ℕ → TenantUpdate → Request
  add_company : CompanyCreate → Request
  change_company : ℕ → TenantUpdate → Request

unfoldable pub serve : Request → Db → Db
serve (add_enterprise body) db = (commit (create_enterprise body) db).1
serve (change_enterprise i body) db = (commit (update_enterprise i body) db).1
serve (add_company body) db = (commit (create_company body) db).1
serve (change_company i body) db = (commit (update_company i body) db).1

unfoldable pub serve_all : List Request → Db → Db
serve_all [] db = db
serve_all (r ∷ rs) db = serve_all rs (serve r db)
