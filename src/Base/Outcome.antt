-- ===== src/Base/Outcome.antt =====
-- How a request ends: with a value, with an HTTP error, or with another exception. A method of a
-- service runs on a session, so it returns the rows it leaves behind beside its result.
use Prim.Native.Nat.{ℕ}
use mathlib.Core.Bool.{Bool, true, false}
use mathlib.Core.Path.{◌≡◌, refl}
use mathlib.Core.Option.{Option, none, some}
use mathlib.Core.List.{List, [], ◌∷◌}

-- The `detail` of an HTTPException, one constructor for each text.
pub data Detail : Type 0 where
  missing_parameter invalid_id system_not_found insufficient_permissions : Detail
  script_not_found not_draft cannot_approve cannot_reject version_not_found : Detail
  cycle_not_found cycle_completed cycle_closed script_not_approved not_a_tester : Detail
  assignment_not_found invalid_outcome no_scripts nothing_dispatched : Detail
  run_not_found not_cancellable runs_exceeded tokens_exceeded unknown_tier : Detail
  job_not_found cron_required cron_invalid cron_too_frequent run_at_required : Detail
  run_at_past too_many_jobs url_required requirements_required scripts_required : Detail
  requirement_not_found approved_scripts_linked active_cycles user_not_found : Detail
  own_account system_required role_exceeds role_not_found user_exists : Detail
  invitation_gone invitation_pending invitation_not_found invitation_settled : Detail
  company_not_found enterprise_not_found slug_taken missing_company missing_user : Detail

pub data Error : Type 0 where
  http : ℕ → Detail → Error
  -- Python's ValueError and KeyError, SQLAlchemy's MultipleResultsFound and IntegrityError, and
  -- None where a value is used (AttributeError), and TypeError.
  value_error key_error multiple_results integrity_error attribute_error type_error : Error
  -- Any other exception, of code that is not modelled.
  other_exception : Error

pub data Result (A : Type 0) : Type 0 where
  ok : A → Result A
  err : Error → Result A

module _ {A : Type 0} where
  abbrev pub is_ok : Result A → Bool
  is_ok (ok a) = true
  is_ok (err e) = false

-- A method on a session whose rows are an `S`. What was written before a raise stays in the
-- session, so the rows come back beside an error too.
abbrev pub Action : Type 0 → Type 0 → Type 0
Action S A = S → Result A × S

module _ {A : Type 0} where
  -- `scalar_one_or_none`
  abbrev pub one_or_none : List A → Result (Option A)
  one_or_none [] = ok none
  one_or_none (x ∷ []) = ok (some x)
  one_or_none (x ∷ y ∷ zs) = err multiple_results

module _ {S A : Type 0} where
  abbrev pub pure : A → Action S A
  pure a s = (ok a, s)

  abbrev pub raise : Error → Action S A
  raise e s = (err e, s)

  abbrev pub gets : (S → A) → Action S A
  gets f s = (ok (f s), s)

  abbrev pub lift : Result A → Action S A
  lift r s = (r, s)

  abbrev pub or_raise : Option A → Error → Action S A
  or_raise none e s = (err e, s)
  or_raise (some a) e s = (ok a, s)

  -- `get_db`: the session is committed when the method returns and rolled back when it raises.
  unfoldable pub commit : Action S A → Action S A
  commit m s = let (r, s') = m s in elim r [ ok a ↦ (ok a, s') | err e ↦ (err e, s) ]

infixl 5 ◌>>=◌ ◌>>◌
abbrev pub ◌>>=◌ : {S A B : Type 0} → Action S A → (A → Action S B) → Action S B
◌>>=◌ m f s = let (r, s') = m s in elim r [ ok a ↦ f a s' | err e ↦ (err e, s') ]

abbrev pub ◌>>◌ : {S A B : Type 0} → Action S A → Action S B → Action S B
m >> k = m >>= λ _. k

abbrev pub raise_if : {S : Type 0} → Bool → Error → Action S (Unit {0})
raise_if true e s = (err e, s)
raise_if false e s = (ok tt, s)

abbrev pub modify : {S : Type 0} → (S → S) → Action S (Unit {0})
modify f s = (ok tt, f s)

module _ {S A B : Type 0} (f : A → Action S B) where
  bind_cases :
      (q : Result A × S) (b : B)
      → let p = elim q.0 as (λ _. Result B × S) [ ok a ↦ f a q.1 | err e ↦ (err e, q.1) ] in
        p.0 ≡ ok b → (a : A) × (q.0 ≡ ok a) × ((f a q.1).0 ≡ ok b) × (p.1 ≡ (f a q.1).1)
  bind_cases (ok a, s) b h = (a, refl, h, refl)
  bind_cases (err e, s) b h = absurd (cc h)

  -- An action that returns has its first part return.
  pub bind_ok :
      (m : Action S A) (s : S) (b : B)
      → ((m >>= f) s).0 ≡ ok b
      → (a : A) × ((m s).0 ≡ ok a) × ((f a (m s).1).0 ≡ ok b) × (((m >>= f) s).1 ≡ (f a (m s).1).1)
  bind_ok m s b h = bind_cases (m s) b h
