-- ===== src/Systems.antt =====
-- Systems and their managers: SystemService of backend/app/services/system_service.py.
pub mod Managers
pub mod Deletion
pub mod Views
use kaats_v.Base.{
  ℕ, ◌+◌, Bool, true, false, ◌&&◌, ◌||◌, not, Option, none, some, List, [], ◌∷◌, String, ltb, ◌==◌,
  if◌then◌else◌, opt_is, select, count, get, replace, ok, err, http, system_not_found,
  user_not_found, active_cycles, Action, pure, gets, or_raise, raise_if, modify, ◌>>=◌, ◌>>◌,
}
use kaats_v.Schema.{Db, User, UserRole, System, TestCycle, role, system_manager, user_role_enum}
use kaats_v.Access.Check.{is_system_manager, is_allowed}
use kaats_v.Cycles.{is_open}

abbrev pub existing : Option System → Option System
existing none = none
existing (some s) = if s.is_deleted then none else some s

unfoldable pub load_system : ℕ → Action Db System
load_system system_id db =
    or_raise (existing (get System.id system_id db.systems)) (http 404 system_not_found) db

unfoldable pub put_system : System → Db → Db
put_system s db = record db { systems = replace System.id s db.systems }

-- Cycles of the system that are planned or in progress.
unfoldable pub active_cycle_count : ℕ → Db → ℕ
active_cycle_count system_id db =
    count (λ (c : TestCycle). (c.system_id == system_id) && is_open c.status) db.cycles

abbrev pub deleted_system : System → System
deleted_system s = record s { is_deleted = true; is_active = false }

unfoldable pub delete_system : ℕ → Action Db (Unit {0})
delete_system system_id = do
  system ← load_system system_id
  active ← gets (active_cycle_count system_id)
  raise_if (ltb 0 active) (http 409 active_cycles)
  modify (put_system (deleted_system system))

-- A role row of the user as manager of the system.
unfoldable pub manages : ℕ → ℕ → UserRole → Bool
manages system_id user_id r =
    (r.user_id == user_id)
    && (opt_is r.system_id system_id && is_allowed is_system_manager (user_role_enum r.role_code))

abbrev pub active_user : Option User → Option User
active_user none = none
active_user (some u) = if u.is_active then some u else none

-- The role rows of the old manager for the system deleted, unless it is the new one.
unfoldable pub revoke_old : ℕ → Option ℕ → ℕ → List UserRole → List UserRole
revoke_old system_id none user_id rows = rows
revoke_old system_id (some old) user_id rows =
    if old == user_id then rows else select (λ r. not (manages system_id old r)) rows

abbrev pub manager_role : ℕ → ℕ → ℕ → ℕ → UserRole
manager_role id system_id user_id company_id = record {
  id = id;
  user_id = user_id;
  role_code = role system_manager;
  enterprise_id = none;
  company_id = some company_id;
  system_id = some system_id;
  business_domain = none;
  expires_at = none;
  granted_by = none;
}

-- A role row for the new manager, unless there is one.
unfoldable pub grant_new : ℕ → ℕ → ℕ → ℕ → List UserRole → List UserRole
grant_new id system_id user_id company_id rows =
    if ltb 0 (count (manages system_id user_id) rows)
    then rows
    else manager_role id system_id user_id company_id ∷ rows

-- The role rows after the change of manager.
unfoldable pub managed_rows : ℕ → System → ℕ → ℕ → List UserRole → List UserRole
managed_rows id s user_id company_id rows =
    grant_new id s.id user_id company_id (revoke_old s.id s.system_manager_id user_id rows)

unfoldable pub assign_manager : ℕ → ℕ → ℕ → Action Db System
assign_manager system_id user_id company_id = do
  system ← load_system system_id
  found ← gets (λ (db : Db). active_user (get User.id user_id db.users))
  manager ← or_raise found (http 404 user_not_found)
  modify (λ db. record db {
    user_roles = managed_rows db.next_id system user_id company_id db.user_roles;
    next_id = db.next_id + 1;
  })
  modify (put_system (record system { system_manager_id = some user_id }))
  pure (record system { system_manager_id = some user_id })
