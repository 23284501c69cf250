-- ===== src/Tenants/Slugs.antt =====
-- The slugs of enterprises and companies.
use kaats_v.Base.{
  ℕ, ◌≤◌, ◌≡◌, refl, Bool, false, List, [], ◌∷◌, String, arith, any, commit, count, get, get-key,
  replace, count-update, Option-cases, Bool-cases, inl, inr,
}
use kaats_v.Schema.{Db, Enterprise, Company}
use kaats_v.Tenants.{
  enterprise_slug_is, company_slug_is, EnterpriseCreate, CompanyCreate, new_enterprise, new_company,
  updated_enterprise, updated_company, get_enterprise, get_company, create_enterprise,
  update_enterprise, create_company, update_company, Request, add_enterprise, change_enterprise,
  add_company, change_company, serve, serve_all,
}
use text.Mathlib.Text.{◌==◌ as str_eq}
use text.Mathlib.TextEquality.{eq_iff}

-- No two enterprises, and no two companies, have the same slug.
abbrev pub UniqueSlugs : Db → Type 0
UniqueSlugs db =
    (slug : String)
    → (count (enterprise_slug_is slug) db.enterprises ≤ 1)
      × (count (company_slug_is slug) db.companies ≤ 1)

any-count : {A : Type 0} (p : A → Bool) (xs : List A) → any p xs ≡ false → count p xs ≡ 0
unfolding any count
any-count p [] h = refl
any-count p (x ∷ xs) h = ground (arith, any-count p xs)

-- One more enterprise, of a slug that none had.
enterprise_added :
    (body : EnterpriseCreate) (i : ℕ) (xs : List Enterprise) (slug : String)
    → any (enterprise_slug_is body.slug) xs ≡ false
    → count (enterprise_slug_is slug) xs ≤ 1
    → count (enterprise_slug_is slug) (new_enterprise i body ∷ xs) ≤ 1
unfolding count
enterprise_added body i xs slug h le = elim (Bool-cases (str_eq body.slug slug)) [
  | inl e ↦
      let q : body.slug ≡ slug = (eq_iff body.slug slug).0 e in
      let z : count (enterprise_slug_is slug) xs ≡ 0 =
        rw (← q) (any-count (enterprise_slug_is body.slug) xs h) in
      ground (arith, z)
  | inr e ↦ ground (arith, e, le)
]

company_added :
    (body : CompanyCreate) (i : ℕ) (xs : List Company) (slug : String)
    → any (company_slug_is body.slug) xs ≡ false
    → count (company_slug_is slug) xs ≤ 1
    → count (company_slug_is slug) (new_company i body ∷ xs) ≤ 1
unfolding count
company_added body i xs slug h le = elim (Bool-cases (str_eq body.slug slug)) [
  | inl e ↦
      let q : body.slug ≡ slug = (eq_iff body.slug slug).0 e in
      let z : count (company_slug_is slug) xs ≡ 0 =
        rw (← q) (any-count (company_slug_is body.slug) xs h) in
      ground (arith, z)
  | inr e ↦ ground (arith, e, le)
]

serve-UniqueSlugs : (r : Request) (db : Db) → UniqueSlugs db → UniqueSlugs (serve r db)
unfolding serve commit create_enterprise update_enterprise create_company update_company
    get_enterprise get_company replace
serve-UniqueSlugs (add_enterprise body) db u = λ slug.
    let (a, b) = u slug in
    let new = enterprise_added body db.next_id db.enterprises slug in
    (ground (arith, a, new), ground (arith, b))
serve-UniqueSlugs (add_company body) db u = λ slug.
    let (a, b) = u slug in
    let new = company_added body db.next_id db.companies slug in
    (ground (arith, a), ground (arith, b, new))
serve-UniqueSlugs (change_enterprise i body) db u = λ slug.
    let (a, b) = u slug in
    elim (Option-cases (get Enterprise.id i db.enterprises)) [
      | inl e ↦ (ground (arith, a, e), ground (arith, b, e))
      | inr (x, e) ↦
          let k = get-key Enterprise.id i x db.enterprises e in
          let p = enterprise_slug_is slug in
          let n =
            count-update Enterprise.id p i (λ _. updated_enterprise body x) x db.enterprises e in
          (ground (arith, a, e, k, n), ground (arith, b, e))
    ]
serve-UniqueSlugs (change_company i body) db u = λ slug.
    let (a, b) = u slug in
    elim (Option-cases (get Company.id i db.companies)) [
      | inl e ↦ (ground (arith, a, e), ground (arith, b, e))
      | inr (x, e) ↦
          let k = get-key Company.id i x db.companies e in
          let p = company_slug_is slug in
          let n = count-update Company.id p i (λ _. updated_company body x) x db.companies e in
          (ground (arith, a, e), ground (arith, b, e, k, n))
    ]

-- Where no two enterprises and no two companies have the same slug, so it is after any sequence of
-- creations and updates by the service of tenants, each committed or rolled back.
pub serve_all-UniqueSlugs :
    (rs : List Request) (db : Db) → UniqueSlugs db → UniqueSlugs (serve_all rs db)
unfolding serve_all
serve_all-UniqueSlugs [] db u = u
serve_all-UniqueSlugs (r ∷ rs) db u =
    serve_all-UniqueSlugs rs (serve r db) (serve-UniqueSlugs r db u)
