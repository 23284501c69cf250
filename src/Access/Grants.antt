-- ===== src/Access/Grants.antt =====
-- What `require_system_access` lets through, as a specification.
use kaats_v.Base.{
  ℕ, ◌≡◌, ◌↔◌, ◌⊎◌, inl, inr, true, false, Option, some, Memᴰ, arith, any, any_intro, any_elim,
  elem, get, ok,
}
use kaats_v.Schema.{UserRoleEnum, role, user_role_enum, UserRole, System, Db}
use kaats_v.Access.Roles.{Permission, role_has, ownership_gated}
use kaats_v.Access.Check.{
  CurrentUser, is_system_manager, check_system_ownership, role_grants, uuid, check_system,
  require_system_access,
}
use kaats_v.Access.Ownership.{Owns, check_system_ownership_iff}

-- The role `e` of the caller carries the permission to the system: a system manager must own it
-- where the permission is gated by ownership.
abbrev pub Carries : CurrentUser → Permission → ℕ → UserRoleEnum → Type 0
Carries u p system_id e =
    (role_has e p ≡ true)
    × ((is_system_manager e ≡ false) ⊎ ((ownership_gated p ≡ false) ⊎ Owns u system_id))

-- One of the caller's roles carries it.
abbrev pub HoldsRole : CurrentUser → Permission → ℕ → Type 0
HoldsRole u p system_id =
    (r : UserRole) × (e : UserRoleEnum) × Memᴰ r u.roles
    × (r.role_code ≡ role e)
    × Carries u p system_id e

-- The caller reaches the company of the system, and a role carries the permission.
abbrev pub MayUse : CurrentUser → Permission → System → ℕ → Type 0
MayUse u p s i =
    (u.is_global_admin ≡ true)
    ⊎ ((elem s.company_id u.accessible_company_ids ≡ true) × HoldsRole u p i)

grants_cases :
    (u : CurrentUser) (p : Permission) (i : ℕ) (r : UserRole)
    → role_grants u p i (user_role_enum r.role_code) ≡ true
    → (e : UserRoleEnum) × (r.role_code ≡ role e)
      × (role_has e p ≡ true)
      × ((is_system_manager e ≡ false)
          ⊎ ((ownership_gated p ≡ false) ⊎ (check_system_ownership u i ≡ true)))
unfolding role_grants
grants_cases u p i r h = ground arith

role_grants-Carries :
    (u : CurrentUser) (p : Permission) (i : ℕ) (r : UserRole)
    → role_grants u p i (user_role_enum r.role_code) ≡ true
    → (e : UserRoleEnum) × (r.role_code ≡ role e) × Carries u p i e
role_grants-Carries u p i r h =
    let (e, c, has, owns) = grants_cases u p i r h in
    (
      e,
      c,
      (
        has,
        elim owns [
          | inl m ↦ inl m
          | inr (inl g) ↦ inr (inl g)
          | inr (inr o) ↦ inr (inr ((check_system_ownership_iff u i).0 o))
        ],
      ),
    )

Carries-role_grants :
    (u : CurrentUser) (p : Permission) (i : ℕ) (r : UserRole) (e : UserRoleEnum)
    → r.role_code ≡ role e
    → Carries u p i e
    → role_grants u p i (user_role_enum r.role_code) ≡ true
unfolding role_grants
Carries-role_grants u p i r e c (has, inl m) = ground arith
Carries-role_grants u p i r e c (has, inr (inl g)) = ground arith
Carries-role_grants u p i r e c (has, inr (inr o)) =
    let owned = (check_system_ownership_iff u i).1 o in ground arith

any_grant-HoldsRole :
    (u : CurrentUser) (p : Permission) (i : ℕ)
    → any (λ r. role_grants u p i (user_role_enum r.role_code)) u.roles ≡ true
    → HoldsRole u p i
any_grant-HoldsRole u p i h =
    let (r, m, q) = any_elim (λ r. role_grants u p i (user_role_enum r.role_code)) u.roles h in
    let (e, c, k) = role_grants-Carries u p i r q in (r, e, m, c, k)

HoldsRole-any_grant :
    (u : CurrentUser) (p : Permission) (i : ℕ)
    → HoldsRole u p i
    → any (λ r. role_grants u p i (user_role_enum r.role_code)) u.roles ≡ true
HoldsRole-any_grant u p i (r, e, m, c, k) =
    any_intro (λ r. role_grants u p i (user_role_enum r.role_code)) u.roles m
      (Carries-role_grants u p i r e c k)

check_system-ok :
    (p : Permission) (u : CurrentUser) (i : ℕ) (o : Option System) (s : System)
    → check_system p u i o ≡ ok s
    → (o ≡ some s)
      × (s.is_deleted ≡ false)
      × ((u.is_global_admin ≡ true)
          ⊎ ((elem s.company_id u.accessible_company_ids ≡ true)
              × (any (λ r. role_grants u p i (user_role_enum r.role_code)) u.roles ≡ true)))
unfolding check_system
check_system-ok p u i o s h = ground arith

ok-check_system :
    (p : Permission) (u : CurrentUser) (i : ℕ) (s : System)
    → s.is_deleted ≡ false
    → ((u.is_global_admin ≡ true)
        ⊎ ((elem s.company_id u.accessible_company_ids ≡ true)
            × (any (λ r. role_grants u p i (user_role_enum r.role_code)) u.roles ≡ true)))
    → check_system p u i (some s) ≡ ok s
unfolding check_system
ok-check_system p u i s d h = ground arith

-- A request for the system with id `i` passes and yields the row `s` exactly when `s` is the
-- stored row of `i`, is not deleted, and the caller is a global admin, or reaches the company of
-- `s` and has a role that holds the permission, where a system manager must also own the system
-- if the permission is gated by ownership.
pub require_system_access_iff :
    (p : Permission) (i : ℕ) (u : CurrentUser) (db : Db) (s : System)
    → (require_system_access p (uuid i) u db ≡ ok s)
      ↔ ((get System.id i db.systems ≡ some s) × (s.is_deleted ≡ false) × MayUse u p s i)
unfolding require_system_access
require_system_access_iff p i u db s = (
  λ h.
      let (stored, live, may) = check_system-ok p u i (get System.id i db.systems) s h in
      (
        stored,
        live,
        elim may [ inl g ↦ inl g | inr (c, a) ↦ inr (c, any_grant-HoldsRole u p i a) ],
      ),
  λ (stored, live, may). rw stored (
      ok-check_system p u i s live
        (elim may [ inl g ↦ inl g | inr (c, a) ↦ inr (c, HoldsRole-any_grant u p i a) ])),
)
