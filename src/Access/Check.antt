-- ===== src/Access/Check.antt =====
-- Who the caller is and what the caller may do: `get_current_user` and `_load_user_roles` of
-- backend/app/auth/azure_ad.py, `check_system_ownership` and `require_system_access` of
-- backend/app/auth/permissions.py, `require_roles` of backend/app/dependencies.py.
use kaats_v.Base.{
  ℕ, Bool, true, false, not, ◌&&◌, ◌||◌, Option, none, some, List, [], ◌∷◌, ltb, ◌==◌,
  if◌then◌else◌, opt_is, select, any, elem, get, Result, ok, err, http, missing_parameter,
  invalid_id, system_not_found, insufficient_permissions,
}
use kaats_v.Schema.{
  UserRoleEnum, global_admin, enterprise_admin, company_admin, system_manager, validation_lead, qa,
  user_role_enum, User, UserRole, System, Db,
}
use kaats_v.Access.Roles.{Permission, role_has, ownership_gated}

pub record CurrentUser : Type 0 where
  pub user_id : ℕ
  pub roles : List UserRole
  pub is_global_admin : Bool
  pub accessible_company_ids : List ℕ

-- `(UserRole.expires_at.is_(None)) | (UserRole.expires_at > now)`
abbrev pub unexpired : ℕ → Option ℕ → Bool
unexpired now none = true
unexpired now (some t) = ltb now t

unfoldable pub load_user_roles : ℕ → ℕ → Db → List UserRole
load_user_roles now user_id db =
    select (λ r. (r.user_id == user_id) && unexpired now r.expires_at) db.user_roles

-- `{r.company_id for r in roles if r.company_id is not None}`; only membership is used.
unfoldable pub company_ids : List UserRole → List ℕ
company_ids [] = []
company_ids (r ∷ rs) = elim r.company_id [ none ↦ company_ids rs | some c ↦ c ∷ company_ids rs ]

-- The CurrentUser of a stored user.
unfoldable pub current_user : ℕ → User → Db → CurrentUser
current_user now u db =
    let roles = load_user_roles now u.id db in
    record {
      user_id = u.id;
      roles = roles;
      is_global_admin = u.is_global_admin;
      accessible_company_ids = company_ids roles;
    }

-- `_admin_roles`
abbrev pub is_admin_role : UserRoleEnum → Bool
is_admin_role global_admin = true
is_admin_role enterprise_admin = true
is_admin_role company_admin = true
is_admin_role _ = false

abbrev pub is_system_manager : UserRoleEnum → Bool
is_system_manager system_manager = true
is_system_manager _ = false

-- The body of the loop over `user.roles`; `none` is the ValueError that is skipped.
unfoldable pub role_owns : ℕ → Option UserRoleEnum → Option ℕ → Bool
role_owns system_id none on = false
role_owns system_id (some e) on = is_admin_role e || is_system_manager e && opt_is on system_id

unfoldable pub check_system_ownership : CurrentUser → ℕ → Bool
check_system_ownership u system_id =
    if u.is_global_admin
    then true
    else any (λ r. role_owns system_id (user_role_enum r.role_code) r.system_id) u.roles

-- One round of the permission loop: `true` where it sets `granted`.
unfoldable pub role_grants : CurrentUser → Permission → ℕ → Option UserRoleEnum → Bool
role_grants u p system_id none = false
role_grants u p system_id (some e) =
    if not (role_has e p)
    then false
    else not (is_system_manager e && ownership_gated p && not (check_system_ownership u system_id))

-- `allowed.intersection({r.role for r in current_user.roles})` is not empty.
abbrev pub is_allowed : (UserRoleEnum → Bool) → Option UserRoleEnum → Bool
is_allowed allowed none = false
is_allowed allowed (some e) = allowed e

-- `_check` of `require_roles`, where `allowed` is the membership test of its roles.
unfoldable pub require_roles : (UserRoleEnum → Bool) → CurrentUser → Result (Unit {0})
require_roles allowed u =
    if u.is_global_admin
    then ok tt
    else if any (λ r. is_allowed allowed (user_role_enum r.role_code)) u.roles
    then ok tt
    else err (http 403 insufficient_permissions)

-- The role gates at the end of permissions.py.
abbrev pub any_authenticated : UserRoleEnum → Bool
any_authenticated _ = true

abbrev pub can_manage_content : UserRoleEnum → Bool
can_manage_content global_admin = true
can_manage_content enterprise_admin = true
can_manage_content company_admin = true
can_manage_content system_manager = true
can_manage_content _ = false

abbrev pub can_run_agents : UserRoleEnum → Bool
can_run_agents qa = true
can_run_agents validation_lead = true
can_run_agents e = can_manage_content e

abbrev pub can_manage_company : UserRoleEnum → Bool
can_manage_company = is_admin_role

abbrev pub platform_admin_only : UserRoleEnum → Bool
platform_admin_only global_admin = true
platform_admin_only _ = false

abbrev pub can_read_audit : UserRoleEnum → Bool
can_read_audit enterprise_admin = true
can_read_audit e = platform_admin_only e

-- The path parameter: absent, not a UUID, or a UUID.
pub data PathParam : Type 0 where
  absent malformed : PathParam
  uuid : ℕ → PathParam

-- `_check` once the id is parsed and the system read.
unfoldable pub check_system : Permission → CurrentUser → ℕ → Option System → Result System
check_system p u system_id none = err (http 404 system_not_found)
check_system p u system_id (some s) =
    if s.is_deleted
    then err (http 404 system_not_found)
    else if not u.is_global_admin && not (elem s.company_id u.accessible_company_ids)
    then err (http 403 system_not_found)
    else if any (λ r. role_grants u p system_id (user_role_enum r.role_code)) u.roles
        || u.is_global_admin
    then ok s
    else err (http 403 insufficient_permissions)

unfoldable pub require_system_access : Permission → PathParam → CurrentUser → Db → Result System
require_system_access p absent u db = err (http 400 missing_parameter)
require_system_access p malformed u db = err (http 422 invalid_id)
require_system_access p (uuid i) u db = check_system p u i (get System.id i db.systems)
