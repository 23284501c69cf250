-- ===== src/Reports/Coverage.antt =====
-- The share of requirements with scripts.
use kaats_v.Base.{
  ℕ, ◌+◌, ◌*◌, ◌≤◌, ◌<◌, ◌≡◌, refl, Bool, some, List, [], ◌∷◌, arith, Option-cases, inl, inr, count,
  any, opt_is, get, replace, update, get-key,
}
use kaats_v.Schema.{Db, Requirement, TestScript}
use kaats_v.Quota.{Platform}
use kaats_v.Scripts.{soft_delete_script}
use kaats_v.Reports.{live_in, is_covered, or_one, script_coverage}

covered-le-total :
    (system_id : ℕ) (scripts : List TestScript) (qs : List Requirement)
    → count (is_covered system_id scripts) qs ≤ count (live_in system_id) qs
unfolding count
covered-le-total system_id scripts [] = omega arith
covered-le-total system_id scripts (q ∷ qs) = ground (arith, covered-le-total system_id scripts qs)

pub within :
    (r used limit : ℕ) → 2 * (r * limit) ≤ 2000 * used + limit → 0 < limit → used ≤ limit → r ≤ 1000
within r used limit high pos le = grind arith

-- A row written back that the test sees as before.
any-update :
    {A : Type 0} (key : A → ℕ) (p : A → Bool) (i : ℕ) (b a : A) (xs : List A)
    → get key i xs ≡ some a
    → p b ≡ p a
    → any p (update key i (λ _. b) xs) ≡ any p xs
unfolding any get update
any-update key p i b a [] h e = absurd (cc)
any-update key p i b a (x ∷ xs) h e = ground (arith, any-update key p i b a xs)

abbrev covers : ℕ → TestScript → Bool
covers i s = opt_is s.requirement_id i

covered-soft_delete :
    (now i system_id : ℕ) (db : Db) (q : Requirement)
    → is_covered system_id (soft_delete_script now i db).1.scripts q
      ≡ is_covered system_id db.scripts q
unfolding soft_delete_script replace
covered-soft_delete now i system_id db q = elim (Option-cases (get TestScript.id i db.scripts)) [
  | inl e ↦ ground (arith, e)
  | inr (s, e) ↦
      let k = get-key TestScript.id i s db.scripts e in
      let del = record s { deleted_at = some now } in
      ground (arith, k, any-update TestScript.id (covers q.id) i del s db.scripts e refl)
]

soft_delete-requirements :
    (now i : ℕ) (db : Db) → (soft_delete_script now i db).1.requirements ≡ db.requirements
unfolding soft_delete_script
soft_delete-requirements now i db = ground arith

count-ext :
    {A : Type 0} (p q : A → Bool) (xs : List A) → ((a : A) → p a ≡ q a) → count p xs ≡ count q xs
unfolding count
count-ext p q [] h = refl
count-ext p q (x ∷ xs) h = rw (h x, count-ext p q xs h) refl

module _ (platform : Platform) where
  -- The covered requirements are at most all requirements, and the percentage is at most 100.
  pub script_coverage_bounds :
      (system_id : ℕ) (db : Db)
      → let c = script_coverage platform system_id db in
        (c.requirements_with_scripts ≤ c.total_requirements) × (c.coverage_percent ≤ 1000)
  unfolding script_coverage
  script_coverage_bounds system_id db =
      let total = count (live_in system_id) db.requirements in
      let covered = count (is_covered system_id db.scripts) db.requirements in
      let le = covered-le-total system_id db.scripts db.requirements in
      (
        le,
        within (platform.round_pct covered (or_one total)) covered (or_one total)
            (platform.round_pct_high covered (or_one total) (ground arith)) (ground arith)
            (ground arith),
      )

  -- A requirement whose scripts are all deleted counts as covered: the deletion of a script never
  -- changes the coverage.
  pub script_coverage-soft_delete_script :
      (now i system_id : ℕ) (db : Db)
      → script_coverage platform system_id (soft_delete_script now i db).1
        ≡ script_coverage platform system_id db
  unfolding script_coverage
  script_coverage-soft_delete_script now i system_id db =
      let scripts = (soft_delete_script now i db).1.scripts in
      let r = soft_delete-requirements now i db in
      let c =
        count-ext (is_covered system_id scripts) (is_covered system_id db.scripts) db.requirements
          (covered-soft_delete now i system_id db) in
      rw (r, c) refl
