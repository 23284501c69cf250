-- ===== src/Systems/Views.antt =====
-- What a user is shown of systems, and the plain creation and update of one:
-- backend/app/services/system_service.py. The row leaves out the type and the descriptive columns,
-- and so do the filters and updates here; the order of a list is left open.
use kaats_v.Base.{
  ℕ, ◌+◌, ◌≡◌, refl, Bool, true, false, ◌&&◌, not, Option, none, some, List, [], ◌∷◌, String, arith,
  leb, ◌==◌, if◌then◌else◌, opt_is, any, or_else, or_keep, select, count, Memᴰ, select-Mem, ok,
  Action, gets, modify, pure, ◌>>=◌, ◌>>◌,
}
use kaats_v.Schema.{
  Db, System, UserRoleEnum, user_role_enum, AgentRun, AgentType, global_admin, enterprise_admin,
  company_admin, validation_lead, is_active_req, is_approved,
}
use kaats_v.Access.Check.{CurrentUser, is_allowed, is_system_manager}
use kaats_v.Quota.{Platform}
use kaats_v.Reports.{live_in, live_script_in, share, project_summary}
use kaats_v.Systems.{load_system, put_system}

-- `_ADMIN_ROLES`
abbrev pub sees_all : UserRoleEnum → Bool
sees_all global_admin = true
sees_all enterprise_admin = true
sees_all company_admin = true
sees_all validation_lead = true
sees_all _ = false

-- `_is_sm_only`
unfoldable pub is_sm_only : CurrentUser → Bool
is_sm_only u =
    any (λ r. is_allowed is_system_manager (user_role_enum r.role_code)) u.roles
    && not (any (λ r. is_allowed sees_all (user_role_enum r.role_code)) u.roles)

abbrev pub listed_system : ℕ → System → Bool
listed_system company_id s = (s.company_id == company_id) && not s.is_deleted

unfoldable pub list_systems : ℕ → Db → List System
list_systems company_id db = select (listed_system company_id) db.systems

-- The filters that are given: `is_active`, and the test of `ilike` for `search`.
pub record SystemFilter : Type 0 where
  pub wants_active : Option Bool
  pub name_has : Option (String → Bool)

abbrev pub same_bool : Bool → Bool → Bool
same_bool true b = b
same_bool false b = not b

abbrev pub active_is : Option Bool → Bool → Bool
active_is none b = true
active_is (some a) b = same_bool a b

abbrev pub name_fits : Option (String → Bool) → String → Bool
name_fits none t = true
name_fits (some p) t = p t

abbrev pub shown_system : ℕ → CurrentUser → SystemFilter → System → Bool
shown_system company_id u f s =
    listed_system company_id s
    && ((if is_sm_only u then opt_is s.system_manager_id u.user_id else true)
        && (active_is f.wants_active s.is_active && name_fits f.name_has s.name))

unfoldable pub list_systems_filtered : ℕ → CurrentUser → SystemFilter → Db → List System
list_systems_filtered company_id u f db = select (shown_system company_id u f) db.systems

pub record SystemCreate : Type 0 where
  pub name : String
  pub system_manager_id : Option ℕ

abbrev pub new_system : ℕ → ℕ → ℕ → SystemCreate → System
new_system id company_id created_by body = record {
  id = id;
  company_id = company_id;
  name = body.name;
  system_manager_id = some (or_else body.system_manager_id created_by);
  is_active = true;
  is_deleted = false;
}

unfoldable pub create_system : ℕ → ℕ → SystemCreate → Action Db System
create_system company_id created_by body = do
  id ← gets (λ (db : Db). db.next_id)
  modify (λ db. record db {
    systems = new_system id company_id created_by body ∷ db.systems;
    next_id = db.next_id + 1;
  })
  pure (new_system id company_id created_by body)

pub record SystemUpdate : Type 0 where
  pub name : Option String
  pub system_manager_id : Option ℕ
  pub is_active : Option Bool

abbrev pub updated_system : SystemUpdate → System → System
updated_system body s = record s {
  name = or_else body.name s.name;
  system_manager_id = or_keep body.system_manager_id s.system_manager_id;
  is_active = or_else body.is_active s.is_active;
}

unfoldable pub update_system : ℕ → SystemUpdate → Action Db System
update_system system_id body = do
  system ← load_system system_id
  modify (put_system (updated_system body system))
  pure (updated_system body system)

abbrev pub is_crawl : AgentType → Bool
is_crawl AgentType.crawl = true
is_crawl _ = false

abbrev pub is_execution : AgentType → Bool
is_execution AgentType.execution = true
is_execution _ = false

abbrev pub later : ℕ → Option ℕ → Option ℕ
later t none = some t
later t (some u) = if leb t u then some u else some t

-- `SELECT max(created_at)`
unfoldable pub latest_run : (AgentRun → Bool) → List AgentRun → Option ℕ
latest_run p [] = none
latest_run p (r ∷ rs) = let rest = latest_run p rs in if p r then later r.created_at rest else rest

pub record SystemStats : Type 0 where
  pub requirement_count : ℕ
  pub active_requirement_count : ℕ
  pub script_count : ℕ
  pub approved_script_count : ℕ
  pub coverage_pct : ℕ
  pub last_crawl_at : Option ℕ
  pub last_execution_at : Option ℕ

-- `_compute_stats`
unfoldable pub compute_stats : Platform → ℕ → Db → SystemStats
compute_stats platform system_id db =
    let live = count (live_in system_id) db.requirements in
    let required = count (λ q. live_in system_id q && is_active_req q.status) db.requirements in
    let approved = count (λ s. live_script_in system_id s && is_approved s.status) db.scripts in
    record {
      requirement_count = live;
      active_requirement_count = required;
      script_count = count (live_script_in system_id) db.scripts;
      approved_script_count = approved;
      coverage_pct = share platform approved required;
      last_crawl_at =
          latest_run (λ r. opt_is r.system_id system_id && is_crawl r.agent_type) db.agent_runs;
      last_execution_at =
          latest_run (λ r. opt_is r.system_id system_id && is_execution r.agent_type) db.agent_runs;
    }

pub record SystemDetail : Type 0 where
  pub system : System
  pub stats : SystemStats

unfoldable pub get_system_detail : Platform → ℕ → Action Db SystemDetail
get_system_detail platform system_id = do
  system ← load_system system_id
  stats ← gets (compute_stats platform system_id)
  pure (record { system = system; stats = stats })

-- A listed system is stored, live and of the company, and a user that is a system manager without
-- an administrative role is shown only the systems that name it as their manager.
pub list_systems_filtered-scope :
    (company_id : ℕ) (u : CurrentUser) (f : SystemFilter) (db : Db) (s : System)
    → Memᴰ s (list_systems_filtered company_id u f db)
    → Memᴰ s db.systems
      × (s.company_id ≡ company_id)
      × (s.is_deleted ≡ false)
      × (is_sm_only u ≡ true → s.system_manager_id ≡ some u.user_id)
unfolding list_systems_filtered
list_systems_filtered-scope company_id u f db s m =
    let (n, w) = select-Mem (shown_system company_id u f) s db.systems m in
    (n, ground (arith, w), ground (arith, w), λ e. ground (arith, w, e))

-- The detail of a stored, live system shows the counts of the project summary of the reports.
pub get_system_detail-project_summary :
    (platform : Platform) (i : ℕ) (system : System) (db : Db)
    → (load_system i db).0 ≡ ok system
    → (d : SystemDetail) × ((get_system_detail platform i db).0 ≡ ok d)
      × (d.stats.requirement_count ≡ (project_summary i db).requirement_count)
      × (d.stats.script_count ≡ (project_summary i db).script_count)
unfolding get_system_detail compute_stats project_summary load_system
get_system_detail-project_summary platform i system db h =
    (record { system = system; stats = compute_stats platform i db }, ground (arith, h), refl, refl)

-- An update that names a new manager gives no role row: all role rows stay as they were.
pub update_system-user_roles :
    (i : ℕ) (body : SystemUpdate) (db : Db) → (update_system i body db).1.user_roles ≡ db.user_roles
unfolding update_system load_system put_system
update_system-user_roles i body db = ground arith
