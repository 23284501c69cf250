-- ===== src/Tests/Onboarding.antt =====
-- An invitation that is accepted, and one that expires.
use kaats_v.Users.{find_by_email}
use kaats_v.Base.{
  ℕ, ◌<◌, ◌⊎◌, select, first, ◌+◌, ◌≡◌, refl, true, false, none, some, List, [], ◌∷◌, arith, get,
  count, length, ok, err, http, invitation_gone, invitation_pending,
}
use kaats_v.Schema.{Db, User, InvitationToken, InvitationStatus, role, qa}
use kaats_v.Onboarding.{add_invited_role, audit, get_or_create_onboarding, accept_invitation}
use kaats_v.Onboarding.Requests.{
  InviteCreate, OnboardingPatch, create_invitation, Request, create, accept, revoke_pending,
  read_status, patch_status, serve, serve_all,
}
use kaats_v.Onboarding.Lifecycle.{Lifecycle, serve_all-Lifecycle, accept_invitation-once}
use kaats_v.Onboarding.Pending.{UniquePending, serve_all-UniquePending, expired-blocks}
use kaats_v.Onboarding.Members.{IsMember, IsAccepted, shows_member, accept_invitation-IsMember}
use kaats_v.Tests.Data.{two_companies, empty_db}

abbrev invited : InvitationToken
invited = record {
  id = 50;
  company_id = 20;
  invited_by_id = some 1;
  email = "eve@example.com";
  role_code = role qa;
  token = 777;
  status = InvitationStatus.pending;
  expires_at = 1000;
  accepted_at = none;
}

abbrev one_invitation : Db
one_invitation = record two_companies { invitations = invited ∷ [] }

abbrev eve : User
eve = record {
  id = 100;
  email = "eve@example.com";
  display_name = some "Eve";
  azure_oid = none;
  is_active = true;
  is_global_admin = false;
}

abbrev again : InviteCreate
again = record { email = "eve@example.com"; role_enum = qa }

abbrev profile_done : OnboardingPatch
profile_done = record {
  has_profile = some true;
  has_team_member = none;
  has_system = none;
  has_agent_run = none;
}

abbrev requests : List Request
requests =
    patch_status 5 20 profile_done
    ∷ accept 6 777 "Eve"
    ∷ create 7 778 20 1 1 again (ok tt)
    ∷ revoke_pending 20 50
    ∷ read_status 20
    ∷ []

serve_all-Lifecycle_example :
    (b : InvitationToken) × (get InvitationToken.token 777
        (serve_all requests one_invitation).invitations
      ≡ some b)
    × Lifecycle invited b
unfolding get
serve_all-Lifecycle_example = serve_all-Lifecycle requests one_invitation 777 invited refl

accept_invitation-once_example :
    let db' = serve_all requests (serve (accept 6 777 "Eve") one_invitation) in
    accept_invitation 8 777 "Mallory" db' ≡ (err (http 410 invitation_gone), db')
unfolding get accept_invitation find_by_email first select get_or_create_onboarding add_invited_role
    audit
accept_invitation-once_example =
    accept_invitation-once 6 777 "Eve" eve requests 8 "Mallory" one_invitation refl

empty-UniquePending : UniquePending empty_db.invitations
unfolding count
empty-UniquePending company email = omega arith

serve_all-UniquePending_example : UniquePending (serve_all requests empty_db).invitations
serve_all-UniquePending_example = serve_all-UniquePending requests empty_db empty-UniquePending

invited-UniquePending : UniquePending one_invitation.invitations
unfolding count
invited-UniquePending company email = ground arith

abbrev unanswered : List Request
unanswered = create 500 778 20 1 1 again (ok tt) ∷ accept 1500 777 "Eve" ∷ read_status 20 ∷ []

expired-blocks_example :
    let db' = serve_all unanswered one_invitation in
    ((b : InvitationToken) × (get InvitationToken.token 777 db'.invitations ≡ some b)
      × (((t : ℕ) × (t < 1000) × (b.accepted_at ≡ some t) × (b.status ≡ InvitationStatus.accepted))
          ⊎ (b.status ≡ InvitationStatus.revoked)))
    ⊎ ((accept_invitation 2000 777 "Eve" db' ≡ (err (http 410 invitation_gone), db'))
        × (create_invitation 3000 779 20 1 1 again (ok tt) db'
            ≡ (err (http 409 invitation_pending), db')))
unfolding get
expired-blocks_example =
    expired-blocks unanswered 2000 777 "Eve" invited one_invitation 3000 779 1 1 again (ok tt) refl
      refl invited-UniquePending (omega arith) refl

accept_invitation-IsMember_example :
    let db' = (accept_invitation 6 777 "Eve" one_invitation).1 in
    (invited.status ≡ InvitationStatus.pending)
    × (6 < invited.expires_at)
    × (eve.email ≡ invited.email)
    × IsMember eve invited db'.user_roles
    × ((b : InvitationToken) × (get InvitationToken.token 777 db'.invitations ≡ some b)
        × IsAccepted 6 invited b)
    × (shows_member (get kaats_v.Schema.CompanyOnboarding.company_id 20 db'.onboarding) ≡ true)
    × (length db'.audit_logs ≡ 0 + 1)
unfolding get accept_invitation find_by_email first select get_or_create_onboarding add_invited_role
    audit
accept_invitation-IsMember_example =
    accept_invitation-IsMember 6 777 "Eve" invited eve one_invitation refl refl
