-- ===== src/Schema.antt =====
-- The rows of the backend's tables (backend/app/models/), and a session over all of them.
mod Enums
mod Tenancy
mod Testing
mod Agents
mod Onboarding
pub use Enums.*
pub use Tenancy.*
pub use Testing.*
pub use Agents.*
pub use Onboarding.*
use kaats_v.Base.{ℕ, ◌+◌, List}

-- The rows that a session sees. `next_id` is the supply of fresh primary keys (`uuid4()`), so a
-- new row's key is one that no earlier row has.
pub record Db : Type 0 where
  pub users : List User
  pub user_roles : List UserRole
  pub systems : List System
  pub plans : List CompanyPlan
  pub requirements : List Requirement
  pub scripts : List TestScript
  pub versions : List TestScriptVersion
  pub cases : List TestCase
  pub steps : List TestStep
  pub cycles : List TestCycle
  pub assignments : List TestAssignment
  pub results : List TestResult
  pub execution_runs : List ExecutionRun
  pub step_results : List ExecutionStepResult
  pub agent_runs : List AgentRun
  pub token_usage : List CompanyTokenUsage
  pub jobs : List ScheduledJob
  pub job_runs : List ScheduledJobRun
  pub enterprises : List Enterprise
  pub companies : List Company
  pub invitations : List InvitationToken
  pub onboarding : List CompanyOnboarding
  pub audit_logs : List AuditLog
  pub next_id : ℕ
