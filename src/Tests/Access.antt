-- ===== src/Tests/Access.antt =====
-- Access checks on the shared rows.
use kaats_v.Base.{◌≡◌, ◌↔◌, true, false, some, ok, get}
use kaats_v.Schema.{System}
use kaats_v.Access.Roles.{script_approve}
use kaats_v.Access.Check.{current_user, check_system_ownership, require_system_access, uuid}
use kaats_v.Access.Ownership.{Owns, check_system_ownership_iff}
use kaats_v.Access.Grants.{MayUse, require_system_access_iff}
use kaats_v.Tests.Data.{ann, manager, erp, two_companies}

check_system_ownership_iff_example :
    (check_system_ownership (current_user 5 manager two_companies) 30 ≡ true)
    ↔ Owns (current_user 5 manager two_companies) 30
check_system_ownership_iff_example =
    check_system_ownership_iff (current_user 5 manager two_companies) 30

require_system_access_iff_example :
    (require_system_access script_approve (uuid 30) (current_user 5 ann two_companies) two_companies
      ≡ ok erp)
    ↔ ((get System.id 30 two_companies.systems ≡ some erp)
        × (erp.is_deleted ≡ false)
        × MayUse (current_user 5 ann two_companies) script_approve erp 30)
require_system_access_iff_example =
    require_system_access_iff script_approve 30 (current_user 5 ann two_companies) two_companies erp
