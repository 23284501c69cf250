-- ===== src/Cycles/Assignments.antt =====
-- What a bulk assignment guarantees of the assignments that it makes.
use kaats_v.Base.{
  ℕ, ◌≡◌, refl, ap, sym, subst, ◌∙◌, ◌⊎◌, inl, inr, Bool, true, false, ◌&&◌, ◌==◌, none, some, List,
  [], ◌∷◌, Memᴰ, arith, get, ok, is_none, is_some, Option, first-some, Action, pure, ◌>>=◌, bind_ok,
}
use kaats_v.Schema.{
  TestCycle, TestCycleStatus, Db, TestAssignment, TestAssignmentStatus, TestScript,
  TestScriptStatus, is_approved, UserRole, UserRoleEnum, user_role_enum, RoleCode, role,
  validation_tester, validation_lead, qa,
}
use kaats_v.Access.Check.{is_allowed}
use kaats_v.Cycles.{
  TestAssignmentCreate, is_open, is_tester_role, usable_script, tester_role, new_assignment,
  add_assignment, assign_one, assign_each, bulk_assign, load_cycle,
}

-- The id is that of a stored script that is approved and not deleted.
abbrev pub IsUsable : ℕ → Db → Type 0
IsUsable script_id db =
    (s : TestScript) × Memᴰ s db.scripts
    × (s.id ≡ script_id)
    × (s.status ≡ TestScriptStatus.approved)
    × (s.deleted_at ≡ none)

-- The roles that may execute a script.
pub data IsTesterRole : UserRoleEnum → Type 0 where
  tester : IsTesterRole validation_tester
  quality : IsTesterRole qa
  lead : IsTesterRole validation_lead

-- A stored role row gives the user one of these roles.
abbrev pub IsTester : ℕ → Db → Type 0
IsTester user_id db =
    (r : UserRole) × (e : UserRoleEnum) × Memᴰ r db.user_roles
    × (r.user_id ≡ user_id)
    × (r.role_code ≡ role e)
    × IsTesterRole e

-- The assignment is pending, in the cycle, has the item's script, user and date, and the script may
-- be used and the user is a tester.
abbrev pub IsValid : ℕ → ℕ → Db → TestAssignmentCreate → TestAssignment → Type 0
IsValid cycle_id by db item a =
    (a.test_cycle_id ≡ cycle_id)
    × (a.assigned_by ≡ by)
    × (a.status ≡ TestAssignmentStatus.pending)
    × (a.test_script_id ≡ item.test_script_id)
    × (a.assigned_to ≡ item.assigned_to)
    × (a.due_date ≡ item.due_date)
    × IsUsable item.test_script_id db
    × IsTester item.assigned_to db

-- The assignments were made for the items, one for each and in their order.
pub data Made : ℕ → ℕ → Db → List TestAssignmentCreate → List TestAssignment → Type 0 where
  done : {cycle_id by : ℕ} → {db : Db} → Made cycle_id by db [] []
  more :
      {cycle_id by : ℕ}
      → {db : Db} → {item : TestAssignmentCreate} → {a : TestAssignment}
      → {items : List TestAssignmentCreate} → {made : List TestAssignment}
      → IsValid cycle_id by db item a
      → Made cycle_id by db items made
      → Made cycle_id by db (item ∷ items) (a ∷ made)

-- The rows of a table after each of the new ones was put before them.
abbrev pub stored_after : List TestAssignment → List TestAssignment → List TestAssignment
stored_after [] rows = rows
stored_after (a ∷ made) rows = stored_after made (a ∷ rows)

pub usable_script-IsUsable :
    (i : ℕ) (s : TestScript) (db : Db) → usable_script i db ≡ some s → IsUsable i db
unfolding usable_script
usable_script-IsUsable i s db h =
    let (m, e) =
      first-some (λ (t : TestScript). (t.id == i) && (is_approved t.status && is_none t.deleted_at))
        db.scripts h in
    (s, m, ground arith, approved s.status (ground arith), ground arith)
  where
    approved : (c : TestScriptStatus) → is_approved c ≡ true → c ≡ TestScriptStatus.approved
    approved TestScriptStatus.approved h = refl
    approved TestScriptStatus.draft h = absurd (cc)
    approved TestScriptStatus.in_review h = absurd (cc)
    approved TestScriptStatus.deprecated h = absurd (cc)

tester_role_code :
    (c : RoleCode)
    → is_allowed is_tester_role (user_role_enum c) ≡ true
    → (e : UserRoleEnum) × (c ≡ role e) × IsTesterRole e
tester_role_code (role validation_tester) h = (validation_tester, refl, tester)
tester_role_code (role qa) h = (qa, refl, quality)
tester_role_code (role validation_lead) h = (validation_lead, refl, lead)
tester_role_code _ h = absurd (cc)

both_true : (a b : Bool) → (a && b) ≡ true → (a ≡ true) × (b ≡ true)
both_true true true h = (refl, refl)
both_true true false h = absurd (cc)
both_true false b h = absurd (cc)

tester_role-IsTester : (i : ℕ) (r : UserRole) (db : Db) → tester_role i db ≡ some r → IsTester i db
unfolding tester_role
tester_role-IsTester i r db h =
    let (m, q) =
      first-some
        (λ (t : UserRole).
          (t.user_id == i) && is_allowed is_tester_role (user_role_enum t.role_code))
        db.user_roles h in
    let (same, allowed) =
      both_true (r.user_id == i) (is_allowed is_tester_role (user_role_enum r.role_code)) q in
    let (e, c, t) = tester_role_code r.role_code allowed in (r, e, m, ground (arith, same), c, t)

assign_one_found :
    (cycle_id by : ℕ) (item : TestAssignmentCreate) (a : TestAssignment) (db : Db)
    → (s : Option TestScript) (r : Option UserRole) → usable_script item.test_script_id db ≡ s
    → tester_role item.assigned_to db ≡ r
    → (assign_one cycle_id by item db).0 ≡ ok a
    → (is_some s ≡ true)
      × (is_some r ≡ true)
      × (a ≡ new_assignment db.next_id cycle_id by item)
      × ((assign_one cycle_id by item db).1 ≡ add_assignment a db)
unfolding assign_one
assign_one_found cycle_id by item a db s r hs hr h = ground arith

assign_one-IsValid :
    (cycle_id by : ℕ) (item : TestAssignmentCreate) (a : TestAssignment) (db : Db)
    → (assign_one cycle_id by item db).0 ≡ ok a
    → IsValid cycle_id by db item a × ((assign_one cycle_id by item db).1 ≡ add_assignment a db)
assign_one-IsValid cycle_id by item a db h =
    let (script, tests_role, new, stored) =
      assign_one_found cycle_id by item a db (usable_script item.test_script_id db)
        (tester_role item.assigned_to db) refl refl h in
    let (s, found) = some_of (usable_script item.test_script_id db) script in
    let (r, found') = some_of (tester_role item.assigned_to db) tests_role in
    let usable = usable_script-IsUsable item.test_script_id s db found in
    let tests = tester_role-IsTester item.assigned_to r db found' in
    (rw new (refl, refl, refl, refl, refl, refl, usable, tests), stored)
  where
    some_of : {A : Type 0} (o : Option A) → is_some o ≡ true → (a : A) × (o ≡ some a)
    some_of none h = absurd (cc)
    some_of (some a) h = (a, refl)

earlier-Made :
    (cycle_id by : ℕ) (a : TestAssignment) (items : List TestAssignmentCreate)
    (made : List TestAssignment) (db : Db)
    → Made cycle_id by (add_assignment a db) items made
    → Made cycle_id by db items made
unfolding add_assignment
earlier-Made cycle_id by a [] [] db done = done
earlier-Made cycle_id by a [] (b ∷ made) db x = elim x [ ]
earlier-Made cycle_id by a (i ∷ items) [] db x = elim x [ ]
earlier-Made cycle_id by a (i ∷ items) (b ∷ made) db (more v rest) =
    more v (earlier-Made cycle_id by a items made db rest)

assign_each_cons :
    (cycle_id by : ℕ) (item : TestAssignmentCreate) (items : List TestAssignmentCreate)
    (made : List TestAssignment) (db : Db)
    → (assign_each cycle_id by (item ∷ items) db).0 ≡ ok made
    → (a : TestAssignment) × (rest : List TestAssignment) × ((assign_one cycle_id by item db).0
        ≡ ok a)
      × ((assign_each cycle_id by items (assign_one cycle_id by item db).1).0 ≡ ok rest)
      × (made ≡ a ∷ rest)
      × ((assign_each cycle_id by (item ∷ items) db).1
          ≡ (assign_each cycle_id by items (assign_one cycle_id by item db).1).1)
unfolding assign_each
assign_each_cons cycle_id by item items made db h =
    let add : TestAssignment → Action Db (List TestAssignment) =
      λ a. assign_each cycle_id by items >>= λ rest. pure (a ∷ rest) in
    let (a, one, others, last) = bind_ok add (assign_one cycle_id by item) db made h in
    let (rest, made', e, last') =
      bind_ok (λ rest. pure (a ∷ rest)) (assign_each cycle_id by items)
        (assign_one cycle_id by item db).1 made others in
    (a, rest, one, made', ground arith, last ∙ last')

assign_each-Made :
    (cycle_id by : ℕ) (items : List TestAssignmentCreate) (made : List TestAssignment) (db : Db)
    → (assign_each cycle_id by items db).0 ≡ ok made
    → Made cycle_id by db items made
      × ((assign_each cycle_id by items db).1.assignments ≡ stored_after made db.assignments)
unfolding assign_each add_assignment
assign_each-Made cycle_id by [] made db h = let e : made ≡ [] = ground arith in rw e (done, refl)
assign_each-Made cycle_id by (item ∷ items) made db h =
    let (a, rest, one, others, e, last) = assign_each_cons cycle_id by item items made db h in
    let (valid, stored) = assign_one-IsValid cycle_id by item a db one in
    let db' = (assign_one cycle_id by item db).1 in
    let (all, rows) = assign_each-Made cycle_id by items rest db' others in
    let all' =
      earlier-Made cycle_id by a items rest db
        (subst (λ d. Made cycle_id by d items rest) stored all) in
    rw e (
      more valid all',
      ap (λ (d : Db). d.assignments) last
          ∙ rows
          ∙ ap (λ (d : Db). stored_after rest d.assignments) stored,
    )

bulk_opened :
    (cycle_id by : ℕ) (items : List TestAssignmentCreate) (made : List TestAssignment) (db : Db)
    → (bulk_assign cycle_id items by db).0 ≡ ok made
    → (cycle : TestCycle) × (get TestCycle.id cycle_id db.cycles ≡ some cycle)
      × (is_open cycle.status ≡ true)
      × (bulk_assign cycle_id items by db ≡ assign_each cycle_id by items db)
unfolding bulk_assign load_cycle
bulk_opened cycle_id by items made db h = ground arith

-- A bulk assignment that returns was made on a stored cycle that is planned or in progress. For the
-- items, one by one and in their order, it makes an assignment that is pending, in the cycle, by
-- the caller, and has the item's script, user and due date; each script is a stored one that is
-- approved and not deleted, and each user has a stored role row with the role of a tester, of
-- quality assurance or of a validation lead. Exactly these rows are added, the last one first.
pub bulk_assign-IsValid :
    (cycle_id by : ℕ) (items : List TestAssignmentCreate) (made : List TestAssignment) (db : Db)
    → (bulk_assign cycle_id items by db).0 ≡ ok made
    → ((cycle : TestCycle) × (get TestCycle.id cycle_id db.cycles ≡ some cycle)
        × ((cycle.status ≡ TestCycleStatus.planned) ⊎ (cycle.status ≡ TestCycleStatus.in_progress)))
      × Made cycle_id by db items made
      × ((bulk_assign cycle_id items by db).1.assignments ≡ stored_after made db.assignments)
bulk_assign-IsValid cycle_id by items made db h =
    let (cycle, stored, opened, same) = bulk_opened cycle_id by items made db h in
    let (all, rows) = assign_each-Made cycle_id by items made db (ap (λ q. q.0) (sym same) ∙ h) in
    ((cycle, stored, open_status cycle.status opened), all, ap (λ q. q.1.assignments) same ∙ rows)
  where
    open_status :
        (s : TestCycleStatus)
        → is_open s ≡ true
        → (s ≡ TestCycleStatus.planned) ⊎ (s ≡ TestCycleStatus.in_progress)
    open_status TestCycleStatus.planned h = inl refl
    open_status TestCycleStatus.in_progress h = inr refl
    open_status _ h = absurd (cc)
