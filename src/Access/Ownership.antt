-- ===== src/Access/Ownership.antt =====
-- When a caller owns a system, as a relation, and that `check_system_ownership` decides it.
use kaats_v.Base.{
  ℕ, ◌≡◌, ◌↔◌, ◌⊎◌, inl, inr, true, some, Memᴰ, arith, Bool-cases, any_intro, any_elim,
}
use kaats_v.Schema.{UserRoleEnum, role, system_manager, user_role_enum, UserRole}
use kaats_v.Access.Check.{CurrentUser, is_admin_role, role_owns, check_system_ownership}

-- A global admin owns every system, an administrator too; a system manager owns the systems that
-- a role row names.
pub data Owns (u : CurrentUser) (system_id : ℕ) : Type 0 where
  globally : u.is_global_admin ≡ true → Owns u system_id
  as_admin :
      (r : UserRole) (e : UserRoleEnum)
      → Memᴰ r u.roles
      → r.role_code ≡ role e
      → is_admin_role e ≡ true
      → Owns u system_id
  as_manager :
      (r : UserRole)
      → Memᴰ r u.roles
      → r.role_code ≡ role system_manager
      → r.system_id ≡ some system_id
      → Owns u system_id

role_owns_cases :
    (system_id : ℕ) (r : UserRole)
    → role_owns system_id (user_role_enum r.role_code) r.system_id ≡ true
    → ((e : UserRoleEnum) × (r.role_code ≡ role e) × (is_admin_role e ≡ true))
      ⊎ ((r.role_code ≡ role system_manager) × (r.system_id ≡ some system_id))
unfolding role_owns
role_owns_cases system_id r h = ground arith

check_system_ownership-Owns :
    (u : CurrentUser) (system_id : ℕ) → check_system_ownership u system_id ≡ true → Owns u system_id
unfolding check_system_ownership
check_system_ownership-Owns u system_id h = elim (Bool-cases u.is_global_admin) [
  | inl g ↦ Owns.globally g
  | inr g ↦
      let (r, m, q) =
        any_elim (λ r. role_owns system_id (user_role_enum r.role_code) r.system_id) u.roles
          (ground arith) in
      elim (role_owns_cases system_id r q) [
        | inl (e, c, a) ↦ Owns.as_admin r e m c a
        | inr (c, s) ↦ Owns.as_manager r m c s
      ]
]

owned_through :
    (u : CurrentUser) (system_id : ℕ) (r : UserRole)
    → Memᴰ r u.roles
    → role_owns system_id (user_role_enum r.role_code) r.system_id ≡ true
    → check_system_ownership u system_id ≡ true
unfolding check_system_ownership
owned_through u system_id r m h = ground (
  arith,
  any_intro (λ r. role_owns system_id (user_role_enum r.role_code) r.system_id) u.roles m h,
)

Owns-check_system_ownership :
    (u : CurrentUser) (system_id : ℕ) → Owns u system_id → check_system_ownership u system_id ≡ true
unfolding check_system_ownership role_owns
Owns-check_system_ownership u system_id (Owns.globally g) = ground arith
Owns-check_system_ownership u system_id (Owns.as_admin r e m c a) =
    owned_through u system_id r m (ground arith)
Owns-check_system_ownership u system_id (Owns.as_manager r m c s) =
    owned_through u system_id r m (ground arith)

-- `check_system_ownership` returns True exactly for a global admin, for a caller with one of the
-- three administrator roles, and for a system manager one of whose role rows names the system.
pub check_system_ownership_iff :
    (u : CurrentUser) (system_id : ℕ)
    → (check_system_ownership u system_id ≡ true) ↔ Owns u system_id
check_system_ownership_iff u system_id =
    (check_system_ownership-Owns u system_id, Owns-check_system_ownership u system_id)
