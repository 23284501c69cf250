-- ===== src/Scripts/Cases.antt =====
-- The cases and steps that come with a new script: `_add_cases` of
-- backend/app/services/test_script_service.py.
use kaats_v.Base.{ℕ, ◌+◌, Bool, Option, String, List, [], ◌∷◌, ◌≡◌, refl, ◌∙◌}
use kaats_v.Schema.{Db, TestCase, TestStep}

pub record TestStepCreate : Type 0 where
  pub step_number : ℕ
  pub action : String
  pub description : String
  pub expected_outcome : Option String
  pub parameters : Option String

pub record TestCaseCreate : Type 0 where
  pub name : String
  pub description : Option String
  pub stop_on_failure : Bool
  pub order_index : ℕ
  pub steps : List TestStepCreate

abbrev pub new_step : ℕ → ℕ → TestStepCreate → TestStep
new_step id case_id d = record {
  id = id;
  case_id = case_id;
  step_number = d.step_number;
  action = d.action;
  description = d.description;
  expected_outcome = d.expected_outcome;
  parameters = d.parameters;
}

abbrev pub new_case : ℕ → ℕ → TestCaseCreate → TestCase
new_case id script_id d = record {
  id = id;
  script_id = script_id;
  name = d.name;
  description = d.description;
  stop_on_failure = d.stop_on_failure;
  order_index = d.order_index;
}

-- The inner loop, over the steps of one case.
unfoldable pub add_steps : ℕ → List TestStepCreate → Db → Db
add_steps case_id [] db = db
add_steps case_id (d ∷ ds) db =
    add_steps case_id ds
      (record db { steps = new_step db.next_id case_id d ∷ db.steps; next_id = db.next_id + 1 })

unfoldable pub add_cases : ℕ → List TestCaseCreate → Db → Db
unfolding add_steps
add_cases script_id [] db = db
add_cases script_id (d ∷ ds) db =
    let db' = record db {
      cases = new_case db.next_id script_id d ∷ db.cases;
      next_id = db.next_id + 1;
    } in
    add_cases script_id ds (add_steps db.next_id d.steps db')

module _ {A : Type 0} (f : Db → A) where
  -- What the two loops leave as it is: any part of the rows that neither table nor the supply of
  -- keys touches.
  unread-add_steps :
      (skip : (db : Db) (steps : List TestStep) (n : ℕ)
        → f (record db { steps = steps; next_id = n }) ≡ f db)
      (case_id : ℕ) (ds : List TestStepCreate) (db : Db)
      → f (add_steps case_id ds db) ≡ f db
  unfolding add_steps
  unread-add_steps skip case_id [] db = refl
  unread-add_steps skip case_id (d ∷ ds) db = unread-add_steps skip case_id ds _ ∙ skip db _ _

  pub unread-add_cases :
      (skip_steps : (db : Db) (steps : List TestStep) (n : ℕ)
        → f (record db { steps = steps; next_id = n }) ≡ f db)
      (skip_cases : (db : Db) (cases : List TestCase) (n : ℕ)
        → f (record db { cases = cases; next_id = n }) ≡ f db)
      (script_id : ℕ) (ds : List TestCaseCreate) (db : Db)
      → f (add_cases script_id ds db) ≡ f db
  unfolding add_cases
  unread-add_cases skip_steps skip_cases script_id [] db = refl
  unread-add_cases skip_steps skip_cases script_id (d ∷ ds) db =
      unread-add_cases skip_steps skip_cases script_id ds _
      ∙ unread-add_steps skip_steps db.next_id d.steps _
      ∙ skip_cases db _ _

pub scripts-add_cases :
    (script_id : ℕ) (ds : List TestCaseCreate) (db : Db)
    → (add_cases script_id ds db).scripts ≡ db.scripts
scripts-add_cases = unread-add_cases (λ db. db.scripts) (λ _ _ _. refl) (λ _ _ _. refl)

pub versions-add_cases :
    (script_id : ℕ) (ds : List TestCaseCreate) (db : Db)
    → (add_cases script_id ds db).versions ≡ db.versions
versions-add_cases = unread-add_cases (λ db. db.versions) (λ _ _ _. refl) (λ _ _ _. refl)
