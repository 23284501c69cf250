-- ===== src/Schema/Onboarding.antt =====
-- Enterprises, companies, invitations, onboarding checklists and the audit log: models/tenant.py,
-- models/invitation.py, models/onboarding.py, models/audit_log.py.
use kaats_v.Base.{ℕ, Bool, true, false, Option, String}
use kaats_v.Schema.Enums.{RoleCode}

pub record Enterprise : Type 0 where
  pub id : ℕ
  pub name : String
  pub slug : String
  pub is_active : Bool

pub record Company : Type 0 where
  pub id : ℕ
  pub enterprise_id : ℕ
  pub name : String
  pub slug : String
  pub is_active : Bool

pub data InvitationStatus : Type 0 where
  pending accepted expired revoked : InvitationStatus

-- The random `token` of 32 bytes is a number; the column has a unique index.
pub record InvitationToken : Type 0 where
  pub id : ℕ
  pub company_id : ℕ
  pub invited_by_id : Option ℕ
  pub email : String
  pub role_code : RoleCode
  pub token : ℕ
  pub status : InvitationStatus
  pub expires_at : ℕ
  pub accepted_at : Option ℕ

pub record CompanyOnboarding : Type 0 where
  pub id : ℕ
  pub company_id : ℕ
  pub has_profile : Bool
  pub has_team_member : Bool
  pub has_system : Bool
  pub has_agent_run : Bool
  pub completed_at : Option ℕ

-- `event_type`, one constructor for each text that the modelled code writes.
pub data AuditEvent : Type 0 where
  invitation_accepted invitation_created plan_updated : AuditEvent

pub record AuditLog : Type 0 where
  pub id : ℕ
  pub event_type : AuditEvent
  pub actor_user_id : Option ℕ
  pub company_id : Option ℕ
  pub resource_id : Option ℕ

abbrev pub is_pending_invitation : InvitationStatus → Bool
is_pending_invitation InvitationStatus.pending = true
is_pending_invitation _ = false
