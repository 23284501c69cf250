-- ===== src/Search/Tenants.antt =====
-- Whose rows a search shows.
use kaats_v.Base.{
  ℕ, zero, suc, ◌≡◌, refl, subst, true, some, List, [], ◌∷◌, ◌++◌, String, arith, ltb, leb,
  if◌then◌else◌, Bool-cases, inl, inr, select, All, Memᴰ, select-Mem, Option-cases,
}
use kaats_v.Schema.{Db, System, Requirement, TestScript, TestCycle, AgentRun}
use kaats_v.Search.{
  TextTests, Hit, hits_of, take, in_company, system_of, insert_latest, latest_first, system_hit,
  requirement_hit, script_hit, cycle_hit, run_hit, wanted_system, wanted_requirement, wanted_script,
  wanted_cycle, wanted_run, search_systems, search_requirements, search_test_scripts,
  search_test_cycles, search_agent_runs, score, insert_hit, sort_hits, all_hits, search,
}

-- A stored system of the company.
abbrev pub Owns : ℕ → Db → ℕ → Type 0
Owns company db i = (s : System) × (system_of i db ≡ some s) × (s.company_id ≡ company)

-- The hit shows a stored row that is the company's, or that a system of the company has.
pub data OfCompany (text : TextTests) (company : ℕ) (db : Db) (h : Hit) : Type 0 where
  a_system :
      (s : System)
      → Memᴰ s db.systems
      → s.company_id ≡ company
      → h ≡ system_hit s
      → OfCompany text company db h
  a_requirement :
      (q : Requirement)
      → Memᴰ q db.requirements
      → Owns company db q.system_id
      → h ≡ requirement_hit q
      → OfCompany text company db h
  a_script :
      (s : TestScript)
      → Memᴰ s db.scripts
      → Owns company db s.system_id
      → h ≡ script_hit s
      → OfCompany text company db h
  a_cycle :
      (c : TestCycle)
      → Memᴰ c db.cycles
      → c.company_id ≡ company
      → h ≡ cycle_hit c
      → OfCompany text company db h
  a_run :
      (r : AgentRun)
      → Memᴰ r db.agent_runs
      → r.company_id ≡ company
      → h ≡ run_hit text r
      → OfCompany text company db h

module _ {A : Type 0} (P : Hit → Type 0) (f : A → Hit) where
  All-hits_of : (xs : List A) → ((a : A) → Memᴰ a xs → P (f a)) → All P (hits_of f xs)
  All-hits_of [] h = tt
  All-hits_of (x ∷ xs) h = (h x (Memᴰ.head refl), All-hits_of xs (λ a m. h a (Memᴰ.tail m)))

Mem-take : {A : Type 0} (n : ℕ) (a : A) (xs : List A) → Memᴰ a (take n xs) → Memᴰ a xs
Mem-take zero a xs m = elim m [ ]
Mem-take (suc n) a [] m = elim m [ ]
Mem-take (suc n) a (x ∷ xs) (Memᴰ.head e) = Memᴰ.head e
Mem-take (suc n) a (x ∷ xs) (Memᴰ.tail m) = Memᴰ.tail (Mem-take n a xs m)

Mem-insert_latest :
    (r a : AgentRun) (xs : List AgentRun) → Memᴰ a (insert_latest r xs) → Memᴰ a (r ∷ xs)
unfolding insert_latest
Mem-insert_latest r a [] m = m
Mem-insert_latest r a (x ∷ xs) m = elim (Bool-cases (leb x.created_at r.created_at)) [
  | inl e ↦ subst (λ b. Memᴰ a (if b then r ∷ x ∷ xs else x ∷ insert_latest r xs)) e m
  | inr e ↦
      swapped (subst (λ b. Memᴰ a (if b then r ∷ x ∷ xs else x ∷ insert_latest r xs)) e m)
        (Mem-insert_latest r a xs)
]
  where
    behind : Memᴰ a (r ∷ xs) → Memᴰ a (r ∷ x ∷ xs)
    behind (Memᴰ.head q) = Memᴰ.head q
    behind (Memᴰ.tail n) = Memᴰ.tail (Memᴰ.tail n)

    swapped :
        Memᴰ a (x ∷ insert_latest r xs)
        → (Memᴰ a (insert_latest r xs) → Memᴰ a (r ∷ xs))
        → Memᴰ a (r ∷ x ∷ xs)
    swapped (Memᴰ.head q) k = Memᴰ.tail (Memᴰ.head q)
    swapped (Memᴰ.tail n) k = behind (k n)

Mem-latest_first : (a : AgentRun) (xs : List AgentRun) → Memᴰ a (latest_first xs) → Memᴰ a xs
unfolding latest_first
Mem-latest_first a [] m = m
Mem-latest_first a (r ∷ rs) m =
    later (Mem-insert_latest r a (latest_first rs) m) (Mem-latest_first a rs)
  where
    later : Memᴰ a (r ∷ latest_first rs) → (Memᴰ a (latest_first rs) → Memᴰ a rs) → Memᴰ a (r ∷ rs)
    later (Memᴰ.head q) k = Memᴰ.head q
    later (Memᴰ.tail n) k = Memᴰ.tail (k n)

owner : (company i : ℕ) (db : Db) → in_company company (system_of i db) ≡ true → Owns company db i
owner company i db h = elim (Option-cases (system_of i db)) [
  | inl e ↦ absurd (ground (arith, e, h))
  | inr (s, e) ↦ (s, e, ground (arith, e, h))
]

All-join : (P : Hit → Type 0) (xs ys : List Hit) → All P xs → All P ys → All P (xs ++ ys)
All-join P [] ys a b = b
All-join P (x ∷ xs) ys a b = (a.0, All-join P xs ys a.1 b)

All-cut : (P : Hit → Type 0) (n : ℕ) (xs : List Hit) → All P xs → All P (take n xs)
All-cut P zero xs a = tt
All-cut P (suc n) [] a = tt
All-cut P (suc n) (x ∷ xs) a = (a.0, All-cut P n xs a.1)

module _ (text : TextTests) (company : ℕ) (db : Db) where
  abbrev Shown : List Hit → Type 0
  Shown hs = All (OfCompany text company db) hs

  systems-Shown :
      (description : System → String) (term : String) (limit : ℕ)
      → Shown (search_systems text description term company limit db)
  unfolding search_systems
  systems-Shown description term limit =
      let p = wanted_system text description term company in
      All-hits_of (OfCompany text company db) system_hit (take limit (select p db.systems)) (λ s m.
        let (n, w) = select-Mem p s db.systems (Mem-take limit s (select p db.systems) m) in
        a_system s n (ground arith) refl)

  requirements-Shown :
      (term : String) (limit : ℕ) → Shown (search_requirements text term company limit db)
  unfolding search_requirements
  requirements-Shown term limit =
      let p = wanted_requirement text term company db in
      All-hits_of (OfCompany text company db) requirement_hit
        (take limit (select p db.requirements))
        (λ q m.
          let (n, w) =
            select-Mem p q db.requirements (Mem-take limit q (select p db.requirements) m) in
          a_requirement q n (owner company q.system_id db (ground arith)) refl)

  scripts-Shown :
      (term : String) (limit : ℕ) → Shown (search_test_scripts text term company limit db)
  unfolding search_test_scripts
  scripts-Shown term limit =
      let p = wanted_script text term company db in
      All-hits_of (OfCompany text company db) script_hit (take limit (select p db.scripts)) (λ s m.
        let (n, w) = select-Mem p s db.scripts (Mem-take limit s (select p db.scripts) m) in
        a_script s n (owner company s.system_id db (ground arith)) refl)

  cycles-Shown : (term : String) (limit : ℕ) → Shown (search_test_cycles text term company limit db)
  unfolding search_test_cycles
  cycles-Shown term limit =
      let p = wanted_cycle text term company in
      All-hits_of (OfCompany text company db) cycle_hit (take limit (select p db.cycles)) (λ c m.
        let (n, w) = select-Mem p c db.cycles (Mem-take limit c (select p db.cycles) m) in
        a_cycle c n (ground arith) refl)

  runs-Shown : (term : String) (limit : ℕ) → Shown (search_agent_runs text term company limit db)
  unfolding search_agent_runs
  runs-Shown term limit =
      let p = wanted_run text term company in
      let found = select p db.agent_runs in
      All-hits_of (OfCompany text company db) (run_hit text) (take limit (latest_first found))
        (λ r m.
          let (n, w) =
            select-Mem p r db.agent_runs
              (Mem-latest_first r found (Mem-take limit r (latest_first found) m)) in
          a_run r n (ground arith) refl)

  All-insert_hit :
      (term : String) (h : Hit) (xs : List Hit)
      → OfCompany text company db h
      → Shown xs
      → Shown (insert_hit text term h xs)
  unfolding insert_hit
  All-insert_hit term h [] a b = (a, tt)
  All-insert_hit term h (x ∷ xs) a b =
      elim (Bool-cases (leb (score text term h) (score text term x))) [
        | inl e ↦ rw e (a, b)
        | inr e ↦ rw e (b.0, All-insert_hit term h xs a b.1)
      ]

  All-sort_hits : (term : String) (xs : List Hit) → Shown xs → Shown (sort_hits text term xs)
  unfolding sort_hits
  All-sort_hits term [] a = tt
  All-sort_hits term (x ∷ xs) a =
      All-insert_hit term x (sort_hits text term xs) a.0 (All-sort_hits term xs a.1)

  all-Shown :
      (description : System → String) (term : String) (limit : ℕ)
      → Shown (all_hits text description term company limit db)
  all-Shown description term limit =
      let P = OfCompany text company db in
      let s = search_systems text description term company limit db in
      let q = search_requirements text term company limit db in
      let t = search_test_scripts text term company limit db in
      let c = search_test_cycles text term company limit db in
      let r = search_agent_runs text term company limit db in
      All-join P s (q ++ (t ++ (c ++ r))) (systems-Shown description term limit) (
        All-join P q (t ++ (c ++ r)) (requirements-Shown term limit) (
          All-join P t (c ++ r) (scripts-Shown term limit)
            (All-join P c r (cycles-Shown term limit) (runs-Shown term limit))))

  -- Whatever is searched for, each hit shows a stored row of the company that asks, or a
  -- requirement or script of one of its systems.
  pub search-OfCompany :
      (description : System → String) (q : String) (limit : ℕ)
      → All (OfCompany text company db) (search text description q company limit db)
  unfolding search
  search-OfCompany description q limit = elim (Bool-cases (ltb (text.len (text.strip q)) 2)) [
    | inl e ↦ rw e tt
    | inr e ↦
        let term = text.lower (text.strip q) in
        let hits = all_hits text description term company limit db in
        rw e (
          All-cut (OfCompany text company db) limit (sort_hits text term hits)
            (All-sort_hits term hits (all-Shown description term limit)))
  ]
