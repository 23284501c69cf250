-- ===== src/Schema/Tenancy.antt =====
-- Users, roles, systems and plans: models/user.py, models/role.py, models/system.py,
-- models/plan.py. UUIDs and points in time are numbers.
use kaats_v.Base.{ℕ, Bool, Option, String}
use kaats_v.Schema.Enums.{RoleCode}

pub record User : Type 0 where
  pub id : ℕ
  pub email : String
  pub display_name : Option String
  pub azure_oid : Option String
  pub is_active : Bool
  pub is_global_admin : Bool

pub record UserRole : Type 0 where
  pub id : ℕ
  pub user_id : ℕ
  pub role_code : RoleCode
  pub enterprise_id : Option ℕ
  pub company_id : Option ℕ
  pub system_id : Option ℕ
  pub business_domain : Option String
  pub expires_at : Option ℕ
  pub granted_by : Option ℕ

pub record System : Type 0 where
  pub id : ℕ
  pub company_id : ℕ
  pub name : String
  pub system_manager_id : Option ℕ
  pub is_active : Bool
  pub is_deleted : Bool

pub record CompanyPlan : Type 0 where
  pub company_id : ℕ
  pub plan_tier : String
  pub monthly_token_limit : Option ℕ
  pub monthly_agent_run_limit : Option ℕ
  pub max_systems : Option ℕ
  pub max_users : Option ℕ
  pub max_concurrent_agents : Option ℕ
  pub override_reason : Option String
