-- ===== src/Access/Gates.antt =====
-- What the role gates of backend/app/dependencies.py let through.
use kaats_v.Base.{
  ◌≡◌, ◌↔◌, ◌⊎◌, inl, inr, Bool, true, Memᴰ, arith, any, any_intro, any_elim, ok, Bool-cases,
}
use kaats_v.Schema.{UserRoleEnum, role, user_role_enum, UserRole}
use kaats_v.Access.Check.{
  CurrentUser, is_allowed, require_roles, any_authenticated, can_manage_content, can_run_agents,
  can_manage_company, platform_admin_only, can_read_audit,
}

-- A role row of the caller, in whatever company, has one of the roles.
abbrev pub HasRole : (UserRoleEnum → Bool) → CurrentUser → Type 0
HasRole allowed u =
    (r : UserRole) × (e : UserRoleEnum) × Memᴰ r u.roles
    × (r.role_code ≡ role e)
    × (allowed e ≡ true)

allowed_role :
    (allowed : UserRoleEnum → Bool) (r : UserRole)
    → is_allowed allowed (user_role_enum r.role_code) ≡ true
    → (e : UserRoleEnum) × (r.role_code ≡ role e) × (allowed e ≡ true)
allowed_role allowed r h = ground arith

HasRole-of_any :
    (allowed : UserRoleEnum → Bool) (u : CurrentUser)
    → any (λ r. is_allowed allowed (user_role_enum r.role_code)) u.roles ≡ true
    → HasRole allowed u
HasRole-of_any allowed u h =
    let (r, m, q) = any_elim (λ r. is_allowed allowed (user_role_enum r.role_code)) u.roles h in
    let (e, c, a) = allowed_role allowed r q in (r, e, m, c, a)

any-of_HasRole :
    (allowed : UserRoleEnum → Bool) (u : CurrentUser)
    → HasRole allowed u
    → any (λ r. is_allowed allowed (user_role_enum r.role_code)) u.roles ≡ true
any-of_HasRole allowed u (r, e, m, c, a) =
    any_intro (λ r. is_allowed allowed (user_role_enum r.role_code)) u.roles m (rw (c, a))

-- A role gate passes exactly for a global admin and for a caller with a role row whose role it
-- lists.
pub require_roles_iff :
    (allowed : UserRoleEnum → Bool) (u : CurrentUser)
    → (require_roles allowed u ≡ ok tt) ↔ ((u.is_global_admin ≡ true) ⊎ HasRole allowed u)
unfolding require_roles
require_roles_iff allowed u = (
  λ h. elim (Bool-cases u.is_global_admin) [
    | inl g ↦ inl g
    | inr g ↦ inr (HasRole-of_any allowed u (ground arith))
  ],
  λ p. elim p [ inl g ↦ ground arith | inr k ↦ let a = any-of_HasRole allowed u k in ground arith ],
)

widen :
    (small big : UserRoleEnum → Bool)
    → ((e : UserRoleEnum) → small e ≡ true → big e ≡ true)
    → (u : CurrentUser) → require_roles small u ≡ ok tt
    → require_roles big u ≡ ok tt
widen small big step u h = elim ((require_roles_iff small u).0 h) [
  | inl g ↦ (require_roles_iff big u).1 (inl g)
  | inr (r, e, m, c, a) ↦ (require_roles_iff big u).1 (inr (r, e, m, c, step e a))
]

-- The gates are nested: who passes `platform_admin_only` passes `can_read_audit`, who passes that
-- passes `can_manage_company`, then `can_manage_content`, then `can_run_agents`, and then
-- `any_authenticated`.
pub require_roles_nested :
    (u : CurrentUser)
    → (require_roles platform_admin_only u ≡ ok tt → require_roles can_read_audit u ≡ ok tt)
      × (require_roles can_read_audit u ≡ ok tt → require_roles can_manage_company u ≡ ok tt)
      × (require_roles can_manage_company u ≡ ok tt → require_roles can_manage_content u ≡ ok tt)
      × (require_roles can_manage_content u ≡ ok tt → require_roles can_run_agents u ≡ ok tt)
      × (require_roles can_run_agents u ≡ ok tt → require_roles any_authenticated u ≡ ok tt)
require_roles_nested u = (
  widen platform_admin_only can_read_audit (λ e h. ground arith) u,
  widen can_read_audit can_manage_company (λ e h. ground arith) u,
  widen can_manage_company can_manage_content (λ e h. ground arith) u,
  widen can_manage_content can_run_agents (λ e h. ground arith) u,
  widen can_run_agents any_authenticated (λ e h. ground arith) u,
)
