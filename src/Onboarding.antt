-- ===== src/Onboarding.antt =====
-- Invitations and the checklist of a company: backend/app/routers/onboarding.py, and the audit
-- entries of backend/app/services/audit_service.py.
pub mod Requests
pub mod Lifecycle
pub mod Pending
pub mod Members
use kaats_v.Base.{
  ℕ, ◌+◌, Bool, true, false, ◌&&◌, not, Option, none, some, List, [], ◌∷◌, String, ltb, leb, ◌==◌,
  opt_is, if◌then◌else◌, is_none, is_some, or_else, first, select, get, update, replace, Result, ok,
  err, http, integrity_error, Error, invitation_gone, invitation_pending, invitation_not_found,
  invitation_settled, one_or_none, Action, pure, gets, lift, or_raise, raise_if, modify, ◌>>=◌,
  ◌>>◌,
}
use kaats_v.Schema.{
  Db, User, UserRole, RoleCode, role, other_role, UserRoleEnum, InvitationToken, InvitationStatus,
  CompanyOnboarding, AuditLog, AuditEvent, invitation_accepted, invitation_created,
  is_pending_invitation, Company,
}
use kaats_v.Users.{UserCreate, add_user, find_by_email, rank}
use text.Mathlib.Text.{◌==◌ as str_eq}

-- `UserRole.role == inv.role`; the ranks of the roles differ.
abbrev pub same_role : RoleCode → RoleCode → Bool
same_role (role a) (role b) = rank a == rank b
same_role (role a) (other_role t) = false
same_role (other_role s) (role b) = false
same_role (other_role s) (other_role t) = str_eq s t

-- `AuditService.log`; the new row is flushed.
unfoldable pub audit : AuditEvent → Option ℕ → Option ℕ → Option ℕ → Action Db (Unit {0})
audit event actor company resource = modify (λ db. record db {
  audit_logs =
      record {
        id = db.next_id;
        event_type = event;
        actor_user_id = actor;
        company_id = company;
        resource_id = resource;
      }
      ∷ db.audit_logs;
  next_id = db.next_id + 1;
})

-- `is_complete`
abbrev pub is_complete : CompanyOnboarding → Bool
is_complete ob = ob.has_profile && (ob.has_team_member && (ob.has_system && ob.has_agent_run))

-- `_check_and_complete`
abbrev pub check_and_complete : ℕ → CompanyOnboarding → CompanyOnboarding
check_and_complete now ob =
    if is_complete ob && is_none ob.completed_at then record ob { completed_at = some now } else ob

abbrev pub new_onboarding : ℕ → ℕ → CompanyOnboarding
new_onboarding id company_id = record {
  id = id;
  company_id = company_id;
  has_profile = false;
  has_team_member = false;
  has_system = false;
  has_agent_run = false;
  completed_at = none;
}

abbrev pub found_or_created : ℕ → Option CompanyOnboarding → Action Db CompanyOnboarding
found_or_created company_id (some ob) db = (ok ob, db)
found_or_created company_id none db = (
  ok (new_onboarding db.next_id company_id),
  record db {
    onboarding = new_onboarding db.next_id company_id ∷ db.onboarding;
    next_id = db.next_id + 1;
  },
)

-- `_get_or_create_onboarding`; `company_id` is unique in the table.
unfoldable pub get_or_create_onboarding : ℕ → Action Db CompanyOnboarding
get_or_create_onboarding company_id db =
    found_or_created company_id (get CompanyOnboarding.company_id company_id db.onboarding) db

unfoldable pub put_onboarding : CompanyOnboarding → Db → Db
put_onboarding ob db = record db {
  onboarding = replace CompanyOnboarding.company_id ob db.onboarding;
}

-- What `get_invitation_public` shows.
pub record InvitePublic : Type 0 where
  pub email : String
  pub role_code : RoleCode
  pub company_name : String
  pub expires_at : ℕ
  pub is_valid : Bool

abbrev pub name_or : String → Option Company → String
name_or unknown none = unknown
name_or unknown (some c) = c.name

abbrev pub is_usable : ℕ → InvitationToken → Bool
is_usable now inv = is_pending_invitation inv.status && ltb now inv.expires_at

unfoldable pub get_invitation_public : ℕ → ℕ → Action Db InvitePublic
get_invitation_public now token = do
  found ← gets (λ db. get InvitationToken.token token db.invitations)
  inv ← or_raise found (http 404 invitation_not_found)
  company ← gets (λ db. get Company.id inv.company_id db.companies)
  pure (record {
    email = inv.email;
    role_code = inv.role_code;
    company_name = name_or "Unknown" company;
    expires_at = inv.expires_at;
    is_valid = is_usable now inv;
  })

-- `inv is None or inv.status != PENDING or inv.expires_at <= now`
abbrev pub usable : ℕ → Option InvitationToken → Option InvitationToken
usable now none = none
usable now (some inv) = if is_usable now inv then some inv else none

abbrev pub user_or_new : String → Option String → Option User → Action Db User
user_or_new email name (some u) = pure u
user_or_new email name none =
    add_user (record { email = email; display_name = name; azure_oid = none })

abbrev pub invited_role : ℕ → ℕ → InvitationToken → UserRole
invited_role id user_id inv = record {
  id = id;
  user_id = user_id;
  role_code = inv.role_code;
  enterprise_id = none;
  company_id = some inv.company_id;
  system_id = none;
  business_domain = none;
  expires_at = none;
  granted_by = none;
}

abbrev pub has_invited_role : ℕ → InvitationToken → UserRole → Bool
has_invited_role user_id inv r =
    (r.user_id == user_id)
    && (opt_is r.company_id inv.company_id && same_role r.role_code inv.role_code)

-- The role within the company, unless the user has it.
unfoldable pub add_invited_role : ℕ → InvitationToken → Option UserRole → Db → Db
add_invited_role user_id inv (some r) db = db
add_invited_role user_id inv none db = record db {
  user_roles = invited_role db.next_id user_id inv ∷ db.user_roles;
  next_id = db.next_id + 1;
}

abbrev pub consume : ℕ → InvitationToken → InvitationToken
consume now inv = record inv { status = InvitationStatus.accepted; accepted_at = some now }

unfoldable pub accept_invitation : ℕ → ℕ → String → Action Db User
accept_invitation now token display_name = do
  found ← gets (λ db. get InvitationToken.token token db.invitations)
  inv ← or_raise (usable now found) (http 410 invitation_gone)
  known ← gets (find_by_email inv.email)
  user ← user_or_new inv.email (some display_name) known
  rows ← gets (λ db. select (has_invited_role user.id inv) db.user_roles)
  existing ← lift (one_or_none rows)
  modify (add_invited_role user.id inv existing)
  modify (λ db. record db {
    invitations = update InvitationToken.token token (consume now) db.invitations;
  })
  ob ← get_or_create_onboarding inv.company_id
  modify (put_onboarding (check_and_complete now (record ob { has_team_member = true })))
  audit invitation_accepted (some user.id) (some inv.company_id) (some inv.id)
  pure user
