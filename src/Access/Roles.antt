-- ===== src/Access/Roles.antt =====
-- Permissions and what each role holds: `Permission` and `ROLE_PERMISSIONS` of
-- backend/app/auth/permissions.py. A frozenset is its membership test.
use kaats_v.Base.{Bool, true, false}
use kaats_v.Schema.{
  UserRoleEnum, global_admin, enterprise_admin, company_admin, system_manager, validation_lead, qa,
  validation_tester, bpo,
}

pub data Permission : Type 0 where
  enterprise_read enterprise_manage company_read company_manage : Permission
  user_read user_invite user_update user_deactivate : Permission
  user_assign_role system_read system_create system_update : Permission
  system_delete system_manage_own req_read req_create : Permission
  req_update req_delete req_import script_read : Permission
  script_create script_update script_delete script_approve : Permission
  script_export cycle_read cycle_create cycle_update : Permission
  cycle_delete assignment_create assignment_update result_read : Permission
  result_create agent_crawl agent_generate agent_execute : Permission
  schedule_read schedule_create schedule_update schedule_delete : Permission
  evidence_read evidence_export report_read report_export : Permission
  admin_global admin_enterprise admin_company audit_log_read : Permission
  ai_usage_read : Permission

unfoldable pub company_admin_has : Permission → Bool
company_admin_has company_read = true
company_admin_has company_manage = true
company_admin_has user_read = true
company_admin_has user_invite = true
company_admin_has user_update = true
company_admin_has user_deactivate = true
company_admin_has user_assign_role = true
company_admin_has system_read = true
company_admin_has system_create = true
company_admin_has system_update = true
company_admin_has system_delete = true
company_admin_has req_read = true
company_admin_has req_create = true
company_admin_has req_update = true
company_admin_has req_delete = true
company_admin_has req_import = true
company_admin_has script_read = true
company_admin_has script_create = true
company_admin_has script_update = true
company_admin_has script_delete = true
company_admin_has script_approve = true
company_admin_has script_export = true
company_admin_has cycle_read = true
company_admin_has cycle_create = true
company_admin_has cycle_update = true
company_admin_has cycle_delete = true
company_admin_has assignment_create = true
company_admin_has assignment_update = true
company_admin_has result_read = true
company_admin_has result_create = true
company_admin_has agent_crawl = true
company_admin_has agent_generate = true
company_admin_has agent_execute = true
company_admin_has schedule_read = true
company_admin_has schedule_create = true
company_admin_has schedule_update = true
company_admin_has schedule_delete = true
company_admin_has evidence_read = true
company_admin_has evidence_export = true
company_admin_has report_read = true
company_admin_has report_export = true
company_admin_has admin_company = true
company_admin_has ai_usage_read = true
company_admin_has _ = false

unfoldable pub system_manager_has : Permission → Bool
system_manager_has system_read = true
system_manager_has system_manage_own = true
system_manager_has req_read = true
system_manager_has req_create = true
system_manager_has req_update = true
system_manager_has req_delete = true
system_manager_has req_import = true
system_manager_has script_read = true
system_manager_has script_create = true
system_manager_has script_update = true
system_manager_has script_approve = true
system_manager_has script_export = true
system_manager_has cycle_read = true
system_manager_has cycle_create = true
system_manager_has assignment_create = true
system_manager_has result_read = true
system_manager_has agent_crawl = true
system_manager_has agent_generate = true
system_manager_has agent_execute = true
system_manager_has schedule_read = true
system_manager_has schedule_create = true
system_manager_has schedule_update = true
system_manager_has schedule_delete = true
system_manager_has evidence_read = true
system_manager_has report_read = true
system_manager_has report_export = true
system_manager_has user_read = true
system_manager_has ai_usage_read = true
system_manager_has _ = false

unfoldable pub validation_lead_has : Permission → Bool
validation_lead_has cycle_read = true
validation_lead_has cycle_create = true
validation_lead_has cycle_update = true
validation_lead_has cycle_delete = true
validation_lead_has assignment_create = true
validation_lead_has assignment_update = true
validation_lead_has script_read = true
validation_lead_has script_approve = true
validation_lead_has script_export = true
validation_lead_has req_read = true
validation_lead_has result_read = true
validation_lead_has report_read = true
validation_lead_has report_export = true
validation_lead_has evidence_read = true
validation_lead_has agent_execute = true
validation_lead_has user_read = true
validation_lead_has _ = false

unfoldable pub qa_has : Permission → Bool
qa_has result_read = true
qa_has result_create = true
qa_has assignment_update = true
qa_has script_read = true
qa_has req_read = true
qa_has evidence_read = true
qa_has report_read = true
qa_has user_read = true
qa_has agent_crawl = true
qa_has agent_generate = true
qa_has agent_execute = true
qa_has _ = false

unfoldable pub validation_tester_has : Permission → Bool
validation_tester_has script_read = true
validation_tester_has script_create = true
validation_tester_has script_update = true
validation_tester_has req_read = true
validation_tester_has result_create = true
validation_tester_has assignment_update = true
validation_tester_has evidence_read = true
validation_tester_has user_read = true
validation_tester_has _ = false

unfoldable pub bpo_has : Permission → Bool
bpo_has req_read = true
bpo_has script_read = true
bpo_has script_approve = true
bpo_has result_read = true
bpo_has report_read = true
bpo_has evidence_read = true
bpo_has user_read = true
bpo_has _ = false

-- `_ALL - {ADMIN_GLOBAL}`
unfoldable pub enterprise_admin_has : Permission → Bool
enterprise_admin_has admin_global = false
enterprise_admin_has _ = true

-- `permission in ROLE_PERMISSIONS.get(role_enum, frozenset())`
unfoldable pub role_has : UserRoleEnum → Permission → Bool
unfolding enterprise_admin_has company_admin_has system_manager_has validation_lead_has qa_has
    validation_tester_has bpo_has
role_has global_admin p = true
role_has enterprise_admin p = enterprise_admin_has p
role_has company_admin p = company_admin_has p
role_has system_manager p = system_manager_has p
role_has validation_lead p = validation_lead_has p
role_has qa p = qa_has p
role_has validation_tester p = validation_tester_has p
role_has bpo p = bpo_has p

-- `_OWNERSHIP_GATED`
unfoldable pub ownership_gated : Permission → Bool
ownership_gated system_manage_own = true
ownership_gated system_update = true
ownership_gated system_delete = true
ownership_gated _ = false
