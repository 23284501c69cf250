-- ===== src/Onboarding/Requests.antt =====
-- The requests of members and administrators of a company: sending, listing and revoking
-- invitations, and the checklist.
use kaats_v.Base.{
  ℕ, ◌+◌, ◌*◌, Bool, ◌&&◌, ◌||◌, not, Option, none, some, List, [], ◌∷◌, String, ◌==◌,
  if◌then◌else◌, is_some, is_none, or_else, select, get, update, Result, http, integrity_error,
  invitation_pending, invitation_not_found, invitation_settled, one_or_none, Action, pure, gets,
  lift, or_raise, raise_if, modify, commit, ◌>>=◌, ◌>>◌,
}
use kaats_v.Schema.{
  Db, User, role, UserRoleEnum, InvitationToken, InvitationStatus, CompanyOnboarding,
  invitation_created, is_pending_invitation,
}
use kaats_v.Onboarding.{
  audit, check_and_complete, get_or_create_onboarding, put_onboarding, accept_invitation,
}
use text.Mathlib.Text.{◌==◌ as str_eq}

pub record InviteCreate : Type 0 where
  pub email : String
  pub role_enum : UserRoleEnum

abbrev pub is_pending_for : ℕ → String → InvitationToken → Bool
is_pending_for company_id email inv =
    (inv.company_id == company_id) && (str_eq inv.email email && is_pending_invitation inv.status)

-- `_INVITE_TTL_HOURS`, in seconds.
abbrev pub invite_ttl : ℕ
invite_ttl = 48 * 3600

abbrev pub new_invitation : ℕ → ℕ → ℕ → ℕ → ℕ → InviteCreate → InvitationToken
new_invitation id now token company_id inviter_id body = record {
  id = id;
  company_id = company_id;
  invited_by_id = some inviter_id;
  email = body.email;
  role_code = role body.role_enum;
  token = token;
  status = InvitationStatus.pending;
  expires_at = now + invite_ttl;
  accepted_at = none;
}

abbrev pub add_invitation : InvitationToken → Db → Db
add_invitation inv db = record db { invitations = inv ∷ db.invitations; next_id = db.next_id + 1 }

-- `token` is what `secrets.token_urlsafe` returns, and `mail` how `send_invitation` ends. The INSERT
-- breaks the unique key of the tokens, or the foreign key of `invited_by_id` where the inviter's id,
-- which the request's state gives, is no user's; `actor_id` is that of the caller's own row.
unfoldable pub create_invitation :
    ℕ → ℕ → ℕ → ℕ → ℕ → InviteCreate → Result (Unit {0}) → Action Db InvitationToken
create_invitation now token company_id inviter_id actor_id body mail = do
  rows ← gets (λ db. select (is_pending_for company_id body.email) db.invitations)
  existing ← lift (one_or_none rows)
  raise_if (is_some existing) (http 409 invitation_pending)
  taken ← gets (λ db. get InvitationToken.token token db.invitations)
  inviter ← gets (λ db. get User.id inviter_id db.users)
  raise_if (is_some taken || is_none inviter) integrity_error
  id ← gets (λ (db : Db). db.next_id)
  modify (add_invitation (new_invitation id now token company_id inviter_id body))
  lift mail
  audit invitation_created (some actor_id) (some company_id) (some id)
  pure (new_invitation id now token company_id inviter_id body)

unfoldable pub list_invitations : ℕ → Db → List InvitationToken
list_invitations company_id db =
    select (λ inv. (inv.company_id == company_id) && is_pending_invitation inv.status)
      db.invitations

abbrev pub of_company : ℕ → Option InvitationToken → Option InvitationToken
of_company company_id none = none
of_company company_id (some inv) = if inv.company_id == company_id then some inv else none

abbrev pub revoke : InvitationToken → InvitationToken
revoke inv = record inv { status = InvitationStatus.revoked }

unfoldable pub revoke_invitation : ℕ → ℕ → Action Db (Unit {0})
revoke_invitation company_id invitation_id = do
  found ← gets (λ db. of_company company_id (get InvitationToken.id invitation_id db.invitations))
  inv ← or_raise found (http 404 invitation_not_found)
  raise_if (not (is_pending_invitation inv.status)) (http 409 invitation_settled)
  modify (λ db. record db {
    invitations = update InvitationToken.id invitation_id revoke db.invitations;
  })

unfoldable pub get_onboarding_status : ℕ → Action Db CompanyOnboarding
get_onboarding_status company_id = get_or_create_onboarding company_id

pub record OnboardingPatch : Type 0 where
  pub has_profile : Option Bool
  pub has_team_member : Option Bool
  pub has_system : Option Bool
  pub has_agent_run : Option Bool

abbrev pub patched : OnboardingPatch → CompanyOnboarding → CompanyOnboarding
patched body ob = record ob {
  has_profile = or_else body.has_profile ob.has_profile;
  has_team_member = or_else body.has_team_member ob.has_team_member;
  has_system = or_else body.has_system ob.has_system;
  has_agent_run = or_else body.has_agent_run ob.has_agent_run;
}

unfoldable pub patch_onboarding_status : ℕ → ℕ → OnboardingPatch → Action Db CompanyOnboarding
patch_onboarding_status now company_id body = do
  ob ← get_or_create_onboarding company_id
  modify (put_onboarding (check_and_complete now (patched body ob)))
  pure (check_and_complete now (patched body ob))

-- A request, with the point in time at which it is served.
pub data Request : Type 0 where
  create : ℕ → ℕ → ℕ → ℕ → ℕ → InviteCreate → Result (Unit {0}) → Request
  accept : ℕ → ℕ → String → Request
  revoke_pending : ℕ → ℕ → Request
  read_status : ℕ → Request
  patch_status : ℕ → ℕ → OnboardingPatch → Request

-- The rows after a request, committed or rolled back.
unfoldable pub serve : Request → Db → Db
serve (create now token company inviter actor body mail) db =
    (commit (create_invitation now token company inviter actor body mail) db).1
serve (accept now token name) db = (commit (accept_invitation now token name) db).1
serve (revoke_pending company id) db = (commit (revoke_invitation company id) db).1
serve (read_status company) db = (commit (get_onboarding_status company) db).1
serve (patch_status now company body) db = (commit (patch_onboarding_status now company body) db).1

unfoldable pub serve_all : List Request → Db → Db
serve_all [] db = db
serve_all (r ∷ rs) db = serve_all rs (serve r db)
