-- ===== src/Systems/Managers.antt =====
-- What a change of manager does to the role rows, and to who owns the system.
use kaats_v.Base.{
  ℕ, ◌≤◌, ◌≡◌, refl, ap, sym, subst, ◌∙◌, inl, inr, true, false, not, Bool, ◌==◌, Option, none,
  some, List, [], ◌∷◌, arith, get, get-key, get-replace, count, select, ok, Bool-cases, ==_refl,
  Memᴰ,
}
use kaats_v.Schema.{Db, User, UserRole, System}
use kaats_v.Access.Check.{current_user, check_system_ownership}
use kaats_v.Access.Tenancy.{IsOwnRole-load_user_roles}
use kaats_v.Access.Ownership.{Owns, check_system_ownership_iff}
use kaats_v.Systems.{
  load_system, put_system, manages, revoke_old, manager_role, grant_new, managed_rows,
  assign_manager,
}

count-select_other :
    (p q : UserRole → Bool) (rows : List UserRole)
    → ((r : UserRole) → q r ≡ true → p r ≡ false)
    → count p (select (λ r. not (q r)) rows) ≡ count p rows
unfolding count select
count-select_other p q [] h = refl
count-select_other p q (r ∷ rows) h = elim (Bool-cases (q r)) [
  | inl e ↦ let n = h r e in ground (arith, count-select_other p q rows h)
  | inr e ↦ ground (arith, count-select_other p q rows h)
]

count-select_self :
    (q : UserRole → Bool) (rows : List UserRole) → count q (select (λ r. not (q r)) rows) ≡ 0
unfolding count select
count-select_self q [] = refl
count-select_self q (r ∷ rows) = elim (Bool-cases (q r)) [
  | inl e ↦ ground (arith, count-select_self q rows)
  | inr e ↦ ground (arith, count-select_self q rows)
]

granted :
    (id s user company : ℕ) (rows : List UserRole)
    → 1 ≤ count (manages s user) (grant_new id s user company rows)
unfolding grant_new count manages
granted id s user company rows = ground (arith, ==_refl user, ==_refl s)

revoked :
    (id : ℕ) (s : System) (user company old : ℕ) (rows : List UserRole)
    → s.system_manager_id ≡ some old
    → (old == user) ≡ false
    → count (manages s.id old) (managed_rows id s user company rows) ≡ 0
unfolding managed_rows grant_new revoke_old count manages
revoked id s user company old rows m n = ground (arith, count-select_self (manages s.id old) rows)

assigned :
    (i user company : ℕ) (t : System) (db : Db)
    → (assign_manager i user company db).0 ≡ ok t
    → (s : System) × (get System.id i db.systems ≡ some s)
      × (t ≡ record s { system_manager_id = some user })
      × ((assign_manager i user company db).1.user_roles
          ≡ managed_rows db.next_id s user company db.user_roles)
      × ((assign_manager i user company db).1.systems ≡ (put_system t db).systems)
unfolding assign_manager load_system put_system
assigned i user company t db h = ground arith

-- A change of manager that returns leaves the new manager with at least one role row as manager of
-- the system, and an old manager that is another user with none; the system names the new one.
pub assign_manager-manages :
    (i user company : ℕ) (t : System) (db : Db)
    → (assign_manager i user company db).0 ≡ ok t
    → let db' = (assign_manager i user company db).1 in
      (get System.id i db'.systems ≡ some t)
      × (t.system_manager_id ≡ some user)
      × (1 ≤ count (manages i user) db'.user_roles)
      × ((s : System) × (get System.id i db.systems ≡ some s)
          × ((old : ℕ)
              → s.system_manager_id ≡ some old
              → (old == user) ≡ false
              → count (manages i old) db'.user_roles ≡ 0))
unfolding put_system managed_rows
assign_manager-manages i user company t db h =
    let (s, stored, e, rows, systems) = assigned i user company t db h in
    let key = get-key System.id i s db.systems stored in
    let kept = revoke_old s.id s.system_manager_id user db.user_roles in
    (
      ground (arith, get-replace System.id i t s db.systems),
      ground arith,
      rw rows (
          subst (λ j. 1 ≤ count (manages j user) (grant_new db.next_id s.id user company kept)) key
            (granted db.next_id s.id user company kept)),
      (
        s,
        stored,
        λ old m n. rw rows (
            subst (λ j. count (manages j old) (grant_new db.next_id s.id user company kept) ≡ 0) key
              (unfold managed_rows in revoked db.next_id s user company old db.user_roles m n)),
      ),
    )

other_manager :
    (i old user : ℕ) (r : UserRole)
    → (old == user) ≡ false
    → manages i old r ≡ true
    → manages i user r ≡ false
unfolding manages
other_manager i old user r n h = ground arith

kept-count :
    (i user : ℕ) (o : Option ℕ) (rows : List UserRole)
    → count (manages i user) (revoke_old i o user rows) ≡ count (manages i user) rows
unfolding revoke_old
kept-count i user none rows = refl
kept-count i user (some old) rows = elim (Bool-cases (old == user)) [
  | inl e ↦ rw e refl
  | inr e ↦
      rw e (
        count-select_other (manages i user) (manages i old) rows
          (λ r. other_manager i old user r e))
]

fresh_rows :
    (id : ℕ) (s : System) (user company : ℕ) (rows : List UserRole)
    → count (manages s.id user) rows ≡ 0
    → managed_rows id s user company rows
      ≡ manager_role id s.id user company ∷ revoke_old s.id s.system_manager_id user rows
unfolding managed_rows grant_new
fresh_rows id s user company rows z =
    let n = kept-count s.id user s.system_manager_id rows in ground arith

-- A user that had no role row as manager of the system, once it is made the manager, owns the
-- system at every later time.
pub assign_manager-owner :
    (now i company : ℕ) (u : User) (t : System) (db : Db)
    → (assign_manager i u.id company db).0 ≡ ok t
    → count (manages i u.id) db.user_roles ≡ 0
    → check_system_ownership (current_user now u (assign_manager i u.id company db).1) i ≡ true
unfolding current_user
assign_manager-owner now i company u t db h z =
    let db' = (assign_manager i u.id company db).1 in
    let (s, stored, e, rows, systems) = assigned i u.id company t db h in
    let key = get-key System.id i s db.systems stored in
    let z' : count (manages s.id u.id) db.user_roles ≡ 0 =
      subst (λ j. count (manages j u.id) db.user_roles ≡ 0) (sym key) z in
    let new = manager_role db.next_id s.id u.id company in
    let front = rows ∙ fresh_rows db.next_id s u.id company db.user_roles z' in
    let here : Memᴰ new db'.user_roles = subst (Memᴰ new) (sym front) (Memᴰ.head refl) in
    (check_system_ownership_iff (current_user now u db') i).1 (
      Owns.as_manager new (IsOwnRole-load_user_roles now u.id new db' (here, refl, refl)) refl
        (ap some key))
