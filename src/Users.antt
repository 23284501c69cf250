-- ===== src/Users.antt =====
-- Users and their roles: UserService of backend/app/services/user_service.py.
pub mod Ranks
pub mod Escalation
use kaats_v.Base.{
  ℕ, zero, ◌+◌, Bool, true, false, ◌&&◌, not, Option, none, some, List, [], ◌∷◌, String, ltb, ◌==◌,
  if◌then◌else◌, is_none, or_else, or_keep, max, first, get, replace, delete, ok, err, http,
  user_not_found, own_account, system_required, role_exceeds, role_not_found, user_exists, Action,
  pure, gets, or_raise, raise_if, modify, ◌>>=◌, ◌>>◌,
}
use kaats_v.Schema.{
  Db, User, UserRole, UserRoleEnum, RoleCode, role, user_role_enum, global_admin, enterprise_admin,
  company_admin, system_manager, validation_lead, qa, validation_tester, bpo,
}
use kaats_v.Access.Check.{CurrentUser, is_system_manager}
use text.Mathlib.Text.{◌==◌ as str_eq}

-- `_ROLE_RANK`
unfoldable pub rank : UserRoleEnum → ℕ
rank global_admin = 10
rank enterprise_admin = 9
rank company_admin = 8
rank system_manager = 7
rank validation_lead = 6
rank qa = 5
rank validation_tester = 4
rank bpo = 3

-- `_ROLE_RANK.get(text, 0)`
abbrev pub rank_of : Option UserRoleEnum → ℕ
rank_of none = 0
rank_of (some e) = rank e

-- `max(..., default=0)`
unfoldable pub max_rank : List UserRole → ℕ
max_rank [] = 0
max_rank (r ∷ rs) = max (rank_of (user_role_enum r.role_code)) (max_rank rs)

pub record UserRoleAssign : Type 0 where
  pub role_enum : UserRoleEnum
  pub enterprise_id : Option ℕ
  pub company_id : Option ℕ
  pub system_id : Option ℕ
  pub business_domain : Option String
  pub expires_at : Option ℕ

pub record UserCreate : Type 0 where
  pub email : String
  pub display_name : Option String
  pub azure_oid : Option String

abbrev pub new_role : ℕ → ℕ → UserRoleAssign → Option ℕ → ℕ → UserRole
new_role id user_id body company_id granted_by = record {
  id = id;
  user_id = user_id;
  role_code = role body.role_enum;
  enterprise_id = body.enterprise_id;
  company_id = company_id;
  system_id = body.system_id;
  business_domain = body.business_domain;
  expires_at = body.expires_at;
  granted_by = some granted_by;
}

abbrev pub add_role : UserRole → Db → Db
add_role r db = record db { user_roles = r ∷ db.user_roles; next_id = db.next_id + 1 }

abbrev pub new_user : ℕ → UserCreate → User
new_user id body = record {
  id = id;
  email = body.email;
  display_name = body.display_name;
  azure_oid = body.azure_oid;
  is_active = true;
  is_global_admin = false;
}

abbrev pub add_user : UserCreate → Action Db User
add_user body db = (
  ok (new_user db.next_id body),
  record db { users = new_user db.next_id body ∷ db.users; next_id = db.next_id + 1 },
)

unfoldable pub find_by_email : String → Db → Option User
find_by_email email db = first (λ u. str_eq u.email email) db.users

unfoldable pub invite_user : UserCreate → Action Db User
invite_user body = do
  found ← gets (find_by_email body.email)
  raise_if (not (is_none found)) (http 409 user_exists)
  add_user body

-- The user with the e-mail address, or a new one.
abbrev pub existing_or_new : UserCreate → Option User → Action Db User
existing_or_new body none = add_user body
existing_or_new body (some u) = pure u

unfoldable pub invite_user_with_role : UserCreate → UserRoleAssign → ℕ → ℕ → Action Db User
invite_user_with_role body initial_role invited_by company_id = do
  found ← gets (find_by_email body.email)
  user ← existing_or_new body found
  modify (λ db.
      add_role
        (new_role db.next_id user.id initial_role
          (some (or_else initial_role.company_id company_id)) invited_by)
        db)
  pure user

unfoldable pub deactivate_user : ℕ → ℕ → Action Db (Unit {0})
deactivate_user user_id actor_id = do
  raise_if (user_id == actor_id) (http 422 own_account)
  found ← gets (λ (db : Db). get User.id user_id db.users)
  user ← or_raise found (http 404 user_not_found)
  modify (λ db. record db { users = replace User.id (record user { is_active = false }) db.users })

-- An actor without any role row is not checked.
abbrev pub exceeds : UserRoleEnum → List UserRole → Bool
exceeds e [] = false
exceeds e (r ∷ rs) = ltb (max_rank (r ∷ rs)) (rank e)

unfoldable pub assign_role : ℕ → UserRoleAssign → ℕ → List UserRole → Action Db UserRole
assign_role user_id body granted_by actor_roles = do
  found ← gets (λ (db : Db). get User.id user_id db.users)
  user ← or_raise found (http 404 user_not_found)
  raise_if (is_system_manager body.role_enum && is_none body.system_id) (http 422 system_required)
  raise_if (exceeds body.role_enum actor_roles) (http 403 role_exceeds)
  id ← gets (λ (db : Db). db.next_id)
  modify (add_role (new_role id user_id body body.company_id granted_by))
  pure (new_role id user_id body body.company_id granted_by)

-- The role row of the user.
abbrev pub of_user : ℕ → Option UserRole → Option UserRole
of_user user_id none = none
of_user user_id (some r) = if r.user_id == user_id then some r else none

unfoldable pub revoke_role : ℕ → ℕ → Action Db (Unit {0})
revoke_role user_id role_id = do
  found ← gets (λ (db : Db). of_user user_id (get UserRole.id role_id db.user_roles))
  r ← or_raise found (http 404 role_not_found)
  modify (λ db. record db { user_roles = delete UserRole.id role_id db.user_roles })
