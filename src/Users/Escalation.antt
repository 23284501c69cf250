-- ===== src/Users/Escalation.antt =====
-- What the role endpoints let an administrator of one company reach.
use kaats_v.Base.{
  ℕ, ◌≤◌, ◌≡◌, refl, ap, sym, subst, inl, inr, true, false, none, some, List, [], ◌∷◌, arith, ok,
  Memᴰ, get, or_else, Option-cases, ◌+◌,
}
use kaats_v.Schema.{Db, User, UserRole, UserRoleEnum, System, user_role_enum, role, company_admin}
use kaats_v.Access.Roles.{Permission, role_has}
use kaats_v.Access.Check.{require_system_access, uuid, current_user, load_user_roles}
use kaats_v.Access.Tenancy.{IsOwnRole, IsOwnRole-load_user_roles, require_system_access_across}
use kaats_v.Users.{
  new_user, find_by_email, rank, rank_of, max_rank, UserRoleAssign, UserCreate, new_role, exceeds,
  assign_role, invite_user_with_role,
}

max_rank-bound :
    (x : UserRole) (rs : List UserRole)
    → Memᴰ x rs
    → rank_of (user_role_enum x.role_code) ≤ max_rank rs
unfolding max_rank
max_rank-bound x [] m = elim m [ ]
max_rank-bound x (r ∷ rs) (Memᴰ.head q) =
    let same = ap (λ (u : UserRole). rank_of (user_role_enum u.role_code)) q in omega (arith, same)
max_rank-bound x (r ∷ rs) (Memᴰ.tail m) = omega (arith, max_rank-bound x rs m)

allowed_by :
    (x : UserRole) (e : UserRoleEnum) (rs : List UserRole)
    → Memᴰ x rs
    → x.role_code ≡ role e
    → exceeds e rs ≡ false
allowed_by x e [] m c = elim m [ ]
allowed_by x e (r ∷ rs) m c =
    let bound = max_rank-bound x (r ∷ rs) m in
    let same : rank_of (user_role_enum x.role_code) ≡ rank e =
      ap (λ k. rank_of (user_role_enum k)) c in
    ground arith

-- A grant of the administrator role of a company, for good.
abbrev pub admin_of : ℕ → UserRoleAssign
admin_of company_id = record {
  role_enum = company_admin;
  enterprise_id = none;
  company_id = some company_id;
  system_id = none;
  business_domain = none;
  expires_at = none;
}

self_granted :
    (u : User) (company : ℕ) (rs : List UserRole) (db : Db)
    → get User.id u.id db.users ≡ some u
    → exceeds company_admin rs ≡ false
    → let db' = (assign_role u.id (admin_of company) u.id rs db).1 in
      ((assign_role u.id (admin_of company) u.id rs db).0
        ≡ ok (new_role db.next_id u.id (admin_of company) (some company) u.id))
      × (db'.user_roles
          ≡ new_role db.next_id u.id (admin_of company) (some company) u.id ∷ db.user_roles)
      × (db'.systems ≡ db.systems)
unfolding assign_role
self_granted u company rs db h e = (ground arith, ground arith, ground arith)

-- An administrator of any company can make itself an administrator of every other one: the
-- assignment to itself, with the roles that it holds at that time, returns, and from then on it
-- passes for each stored system of that company that is not deleted, with each permission of a
-- company administrator.
pub assign_role-any_company :
    (now later : ℕ) (p : Permission) (i : ℕ) (u : User) (held : UserRole) (s : System) (db : Db)
    → get User.id u.id db.users ≡ some u
    → IsOwnRole now u.id held db
    → held.role_code ≡ role company_admin
    → get System.id i db.systems ≡ some s
    → s.is_deleted ≡ false
    → role_has company_admin p ≡ true
    → let q = assign_role u.id (admin_of s.company_id) u.id (load_user_roles now u.id db) db in
      require_system_access p (uuid i) (current_user later u q.1) q.1 ≡ ok s
assign_role-any_company now later p i u held s db stored own code sys live has =
    let rs = load_user_roles now u.id db in
    let within =
      allowed_by held company_admin rs (IsOwnRole-load_user_roles now u.id held db own) code in
    let (_, rows, systems) = self_granted u s.company_id rs db stored within in
    let db' = (assign_role u.id (admin_of s.company_id) u.id rs db).1 in
    let new = new_role db.next_id u.id (admin_of s.company_id) (some s.company_id) u.id in
    let here : Memᴰ new db'.user_roles = subst (Memᴰ new) (sym rows) (Memᴰ.head refl) in
    let sys' : get System.id i db'.systems ≡ some s =
      subst (λ l. get System.id i l ≡ some s) (sym systems) sys in
    require_system_access_across later p i u db' s new new company_admin sys' live
      (here, refl, refl) refl refl has (here, refl, refl) refl

-- An invitation is not checked at all: whoever invites, and whatever the role is, the invitation
-- returns and the invited user has a row with that role.
pub invite_user_with_role-unranked :
    (body : UserCreate) (grant : UserRoleAssign) (by company : ℕ) (db : Db)
    → (u : User) × (r : UserRole) × ((invite_user_with_role body grant by company db).0 ≡ ok u)
      × ((invite_user_with_role body grant by company db).1.user_roles ≡ r ∷ db.user_roles)
      × (r.user_id ≡ u.id)
      × (r.role_code ≡ role grant.role_enum)
      × (r.company_id ≡ some (or_else grant.company_id company))
unfolding invite_user_with_role
invite_user_with_role-unranked body grant by company db =
    elim (Option-cases (find_by_email body.email db)) [
      | inl e ↦ rw e (
        new_user db.next_id body,
        new_role (db.next_id + 1) db.next_id grant (some (or_else grant.company_id company)) by,
        refl,
        refl,
        refl,
        refl,
        refl,
      )
      | inr (u, e) ↦ rw e (
        u,
        new_role db.next_id u.id grant (some (or_else grant.company_id company)) by,
        refl,
        refl,
        refl,
        refl,
        refl,
      )
    ]
