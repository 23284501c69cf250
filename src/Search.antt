-- ===== src/Search.antt =====
-- The global search: SearchService of backend/app/services/search_service.py. What Python and the
-- database say of texts is a parameter.
pub mod Tenants
pub mod Hits
use kaats_v.Base.{
  ℕ, zero, suc, ◌+◌, Bool, true, false, ◌&&◌, ◌||◌, not, Option, none, some, List, [], ◌∷◌, ◌++◌,
  String, ltb, leb, ◌==◌, if◌then◌else◌, select, get,
}
use kaats_v.Schema.{Db, System, Requirement, TestScript, TestCycle, AgentRun, AgentType}

-- `strip`, `lower`, `len`, `==` and `startswith` of Python, `ILIKE %term%` of the database, and the
-- text of an agent type. `None` has no label to compare.
pub record TextTests : Type 0 where
  pub strip : String → String
  pub lower : String → String
  pub len : String → ℕ
  pub equal : String → String → Bool
  pub starts : String → String → Bool
  pub like : String → String → Bool
  pub agent_text : AgentType → String
  pub run_label : String → String

pub data HitType : Type 0 where
  system requirement test_script test_cycle agent_run : HitType

pub record Hit : Type 0 where
  pub hit_type : HitType
  pub id : ℕ
  pub label : String

abbrev pub hits_of : {A : Type 0} → (A → Hit) → List A → List Hit
hits_of f [] = []
hits_of f (a ∷ as') = f a ∷ hits_of f as'

-- `.limit(n)` and `results[:n]`
abbrev pub take : {A : Type 0} → ℕ → List A → List A
take zero xs = []
take (suc n) [] = []
take (suc n) (x ∷ xs) = x ∷ take n xs

-- The join with System, and its company.
abbrev pub in_company : ℕ → Option System → Bool
in_company company_id none = false
in_company company_id (some s) = s.company_id == company_id

abbrev pub system_of : ℕ → Db → Option System
system_of i db = get System.id i db.systems

-- The order of `created_at`, the latest first.
unfoldable pub insert_latest : AgentRun → List AgentRun → List AgentRun
insert_latest r [] = r ∷ []
insert_latest r (x ∷ xs) =
    if leb x.created_at r.created_at then r ∷ x ∷ xs else x ∷ insert_latest r xs

unfoldable pub latest_first : List AgentRun → List AgentRun
latest_first [] = []
latest_first (r ∷ rs) = insert_latest r (latest_first rs)

abbrev pub system_hit : System → Hit
system_hit s = record { hit_type = system; id = s.id; label = s.name }

abbrev pub requirement_hit : Requirement → Hit
requirement_hit q = record { hit_type = requirement; id = q.id; label = q.title }

abbrev pub script_hit : TestScript → Hit
script_hit s = record { hit_type = test_script; id = s.id; label = s.title }

abbrev pub cycle_hit : TestCycle → Hit
cycle_hit c = record { hit_type = test_cycle; id = c.id; label = c.name }

module _ (text : TextTests) where
  abbrev pub run_hit : AgentRun → Hit
  run_hit r = record {
    hit_type = agent_run;
    id = r.id;
    label = text.run_label (text.agent_text r.agent_type);
  }

  -- A system's description is searched too; the row keeps its name only.
  abbrev pub wanted_system : (System → String) → String → ℕ → System → Bool
  wanted_system description term company_id s =
      (s.company_id == company_id)
      && (not s.is_deleted && (text.like term s.name || text.like term (description s)))

  abbrev pub wanted_requirement : String → ℕ → Db → Requirement → Bool
  wanted_requirement term company_id db q =
      in_company company_id (system_of q.system_id db)
      && (not q.is_deleted && text.like term q.title)

  abbrev pub wanted_script : String → ℕ → Db → TestScript → Bool
  wanted_script term company_id db s =
      in_company company_id (system_of s.system_id db)
      && (not s.is_deleted && text.like term s.title)

  abbrev pub wanted_cycle : String → ℕ → TestCycle → Bool
  wanted_cycle term company_id c = (c.company_id == company_id) && text.like term c.name

  abbrev pub wanted_run : String → ℕ → AgentRun → Bool
  wanted_run term company_id r =
      (r.company_id == company_id) && text.like term (text.agent_text r.agent_type)

  unfoldable pub search_systems : (System → String) → String → ℕ → ℕ → Db → List Hit
  search_systems description term company_id limit db =
      hits_of system_hit
        (take limit (select (wanted_system description term company_id) db.systems))

  unfoldable pub search_requirements : String → ℕ → ℕ → Db → List Hit
  search_requirements term company_id limit db =
      hits_of requirement_hit
        (take limit (select (wanted_requirement term company_id db) db.requirements))

  unfoldable pub search_test_scripts : String → ℕ → ℕ → Db → List Hit
  search_test_scripts term company_id limit db =
      hits_of script_hit (take limit (select (wanted_script term company_id db) db.scripts))

  unfoldable pub search_test_cycles : String → ℕ → ℕ → Db → List Hit
  search_test_cycles term company_id limit db =
      hits_of cycle_hit (take limit (select (wanted_cycle term company_id) db.cycles))

  unfoldable pub search_agent_runs : String → ℕ → ℕ → Db → List Hit
  search_agent_runs term company_id limit db =
      hits_of run_hit
        (take limit (latest_first (select (wanted_run term company_id) db.agent_runs)))

  -- `_score`
  abbrev pub score : String → Hit → ℕ
  score term h =
      if text.equal (text.lower h.label) term
      then 0
      else if text.starts term (text.lower h.label)
      then 1
      else 2

  -- The sort by `_score` keeps the order of equal scores.
  unfoldable pub insert_hit : String → Hit → List Hit → List Hit
  insert_hit term h [] = h ∷ []
  insert_hit term h (x ∷ xs) =
      if leb (score term h) (score term x) then h ∷ x ∷ xs else x ∷ insert_hit term h xs

  unfoldable pub sort_hits : String → List Hit → List Hit
  sort_hits term [] = []
  sort_hits term (h ∷ hs) = insert_hit term h (sort_hits term hs)

  abbrev pub all_hits : (System → String) → String → ℕ → ℕ → Db → List Hit
  all_hits description term company_id limit db =
      search_systems description term company_id limit db
      ++ (search_requirements term company_id limit db
          ++ (search_test_scripts term company_id limit db
              ++ (search_test_cycles term company_id limit db
                  ++ search_agent_runs term company_id limit db)))

  -- An empty text has length 0, so the first test adds nothing to the second.
  unfoldable pub search : (System → String) → String → ℕ → ℕ → Db → List Hit
  search description q company_id limit db =
      if ltb (text.len (text.strip q)) 2
      then []
      else let term = text.lower (text.strip q) in
        take limit (sort_hits term (all_hits description term company_id limit db))
