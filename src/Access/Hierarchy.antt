-- ===== src/Access/Hierarchy.antt =====
-- How the permission sets of the roles lie above one another.
use kaats_v.Base.{◌≡◌, ◌≢◌, ◌⊎◌, true, arith}
use kaats_v.Schema.{UserRoleEnum, global_admin, enterprise_admin, company_admin, system_manager}
use kaats_v.Access.Roles.{Permission, system_manage_own, role_has}

-- An enterprise admin holds whatever any role but the global admin holds, and a company admin
-- whatever any role below holds, but for the system manager's right to manage its own systems.
pub role_has_hierarchy :
    (e : UserRoleEnum) (p : Permission)
    → role_has e p ≡ true
    → e ≢ global_admin
    → (role_has enterprise_admin p ≡ true)
      × ((e ≡ enterprise_admin)
          ⊎ ((role_has company_admin p ≡ true) ⊎ ((e ≡ system_manager) × (p ≡ system_manage_own))))
unfolding role_has
role_has_hierarchy global_admin p h n = ground arith
role_has_hierarchy _ p h n = ground arith
