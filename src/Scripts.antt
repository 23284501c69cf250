-- ===== src/Scripts.antt =====
-- The test script service, backend/app/services/test_script_service.py: creation with a first
-- version record, updates with snapshots, the review workflow, deletion, and version lookup.
pub mod Cases
use Cases.{TestCaseCreate, add_cases}
pub mod Approval
pub mod Versions
use kaats_v.Base.{
  ℕ, suc, ◌+◌, ◌≡◌, Bool, true, false, ◌&&◌, ◌||◌, not, Option, none, some, List, [], ◌∷◌, ◌++◌,
  String, ◌==◌, if◌then◌else◌, is_some, or_else, or_keep, select, get, replace, delete, Result,
  Error, ok, err, http, one_or_none, integrity_error, any, script_not_found, not_draft,
  cannot_approve, cannot_reject, version_not_found, Action, pure, raise, lift, gets, or_raise,
  raise_if, modify, ◌>>=◌, ◌>>◌,
}
use kaats_v.Schema.{ExecutionRun, Db, TestScript, TestScriptVersion, TestScriptStatus, is_approved}
use Prim.Native.String.{◌++◌ as str_append}
use text.Mathlib.Text.{◌==◌ as str_eq}

-- A row whose `deleted_at` is set is hidden.
abbrev pub live : Option TestScript → Option TestScript
live none = none
live (some s) = if is_some s.deleted_at then none else some s

-- `_load`; primary keys are unique, so `scalar_one_or_none` yields the row of the key.
unfoldable pub load_script : ℕ → Action Db TestScript
load_script script_id db =
    or_raise (live (get TestScript.id script_id db.scripts)) (http 404 script_not_found) db

-- `db.get(TestScript, id)` with its 404, which finds deleted rows too.
unfoldable pub get_script_row : ℕ → Action Db TestScript
get_script_row script_id db =
    or_raise (get TestScript.id script_id db.scripts) (http 404 script_not_found) db

-- The attributes set on a loaded row, flushed.
abbrev pub put_script : TestScript → Db → Db
put_script s db = record db { scripts = replace TestScript.id s db.scripts }

-- `script.version or 1`
abbrev pub version_or_one : ℕ → ℕ
version_or_one n = if n == 0 then 1 else n

unfoldable pub create_version : TestScript → String → Option ℕ → Db → Db
create_version s summary created_by db = record db {
  versions =
      record {
        id = db.next_id;
        test_script_id = s.id;
        version = version_or_one s.version;
        script_content = s.script_content;
        rendered_content = s.rendered_content;
        change_summary = summary;
        created_by = created_by;
      }
      ∷ db.versions;
  next_id = db.next_id + 1;
}

pub record TestScriptCreate : Type 0 where
  pub requirement_id : Option ℕ
  pub title : String
  pub description : Option String
  pub export_format : String
  pub business_domain : Option String
  pub tags : Option (List String)
  pub cases : List TestCaseCreate

-- The new row of `create_with_context`, with the defaults of the columns that it leaves out.
unfoldable pub new_script : ℕ → ℕ → TestScriptCreate → ℕ → ℕ → TestScript
new_script id system_id body company_id created_by = record {
  id = id;
  requirement_id = body.requirement_id;
  system_id = system_id;
  company_id = company_id;
  title = body.title;
  description = body.description;
  version = 1;
  status = TestScriptStatus.draft;
  export_format = body.export_format;
  script_content = none;
  rendered_content = none;
  approved_by = none;
  approved_at = none;
  business_domain = body.business_domain;
  tags = body.tags;
  created_by = some created_by;
  is_deleted = false;
  deleted_at = none;
}

unfoldable pub create_with_context : ℕ → TestScriptCreate → ℕ → ℕ → Action Db TestScript
unfolding new_script create_version add_cases
create_with_context system_id body company_id created_by db =
    let s = new_script db.next_id system_id body company_id created_by in
    let db' = record db { scripts = s ∷ db.scripts; next_id = db.next_id + 1 } in
    (ok s, create_version s "Initial version" (some created_by) (add_cases s.id body.cases db'))

pub record TestScriptUpdate : Type 0 where
  pub title : Option String
  pub description : Option String
  pub status : Option TestScriptStatus
  pub export_format : Option String
  pub script_content : Option String
  pub business_domain : Option String
  pub tags : Option (List String)
  pub change_summary : Option String

-- `setattr` for each field of `model_dump(exclude_none=True, exclude={"change_summary"})`
unfoldable pub apply_update : TestScriptUpdate → TestScript → TestScript
apply_update body s = record s {
  title = or_else body.title s.title;
  description = or_keep body.description s.description;
  status = or_else body.status s.status;
  export_format = or_else body.export_format s.export_format;
  script_content = or_keep body.script_content s.script_content;
  business_domain = or_keep body.business_domain s.business_domain;
  tags = or_keep body.tags s.tags;
}

-- `update`: no version record.
unfoldable pub update_script : ℕ → TestScriptUpdate → Action Db TestScript
unfolding get_script_row apply_update
update_script script_id body = do
  script ← get_script_row script_id
  modify (put_script (apply_update body script))
  pure (apply_update body script)

-- The loaded script with the update applied and its version counted up.
abbrev pub next_version : TestScriptUpdate → TestScript → TestScript
next_version body s =
    let t = apply_update body s in record t { version = version_or_one s.version + 1 }

-- `text or default`, where None and the empty text count as false.
abbrev pub text_or : Option String → String → String
text_or none default = default
text_or (some text) default = if str_eq text "" then default else text

unfoldable pub update_with_version : ℕ → TestScriptUpdate → ℕ → Action Db TestScript
unfolding load_script create_version apply_update
update_with_version script_id body updated_by = do
  script ← load_script script_id
  modify (create_version script (text_or body.change_summary "Content updated") (some updated_by))
  modify (put_script (next_version body script))
  pure (next_version body script)

-- Another row's foreign key, which must not be NULL, names the script.
unfoldable pub is_referenced : ℕ → Db → Bool
is_referenced script_id db =
    any (λ v. v.test_script_id == script_id) db.versions
    || any (λ c. c.script_id == script_id) db.cases
    || any (λ a. a.test_script_id == script_id) db.assignments
    || any (λ r. r.test_script_id == script_id) db.results
    || any (λ (x : ExecutionRun). x.test_script_id == script_id) db.execution_runs

-- `delete`: a hard delete. The relationships of the row cascade nothing, so the database refuses
-- it while a row that must name a script names this one.
unfoldable pub delete_script : ℕ → Action Db (Unit {0})
unfolding get_script_row is_referenced
delete_script script_id = do
  script ← get_script_row script_id
  referenced ← gets (is_referenced script_id)
  raise_if referenced integrity_error
  modify (λ db. record db { scripts = delete TestScript.id script_id db.scripts })

unfoldable pub soft_delete_script : ℕ → ℕ → Action Db (Unit {0})
unfolding load_script
soft_delete_script now script_id = do
  script ← load_script script_id
  modify (put_script (record script { deleted_at = some now }))

abbrev pub is_draft : TestScriptStatus → Bool
is_draft TestScriptStatus.draft = true
is_draft _ = false

abbrev pub is_in_review : TestScriptStatus → Bool
is_in_review TestScriptStatus.in_review = true
is_in_review _ = false

unfoldable pub submit_for_review : ℕ → Action Db TestScript
unfolding load_script
submit_for_review script_id = do
  script ← load_script script_id
  raise_if (not (is_draft script.status)) (http 422 not_draft)
  modify (put_script (record script { status = TestScriptStatus.in_review }))
  pure (record script { status = TestScriptStatus.in_review })

abbrev pub approved_script : ℕ → ℕ → TestScript → TestScript
approved_script now approver_id s = record s {
  status = TestScriptStatus.approved;
  approved_by = some approver_id;
  approved_at = some now;
}

unfoldable pub approve_script : ℕ → ℕ → ℕ → Action Db TestScript
unfolding load_script
approve_script now script_id approver_id = do
  script ← load_script script_id
  raise_if (not (is_in_review script.status || is_draft script.status)) (http 422 cannot_approve)
  modify (put_script (approved_script now approver_id script))
  pure (approved_script now approver_id script)

unfoldable pub reject_script : ℕ → String → ℕ → Action Db TestScript
unfolding load_script create_version
reject_script script_id rejection_comment rejected_by = do
  script ← load_script script_id
  raise_if (not (is_in_review script.status || is_approved script.status)) (http 422 cannot_reject)
  modify (put_script (record script { status = TestScriptStatus.draft }))
  modify (
      create_version (record script { status = TestScriptStatus.draft })
        (str_append "Rejected: " rejection_comment) (some rejected_by))
  pure (record script { status = TestScriptStatus.draft })

abbrev pub found_version : Result (Option TestScriptVersion) → Result TestScriptVersion
found_version (ok none) = err (http 404 version_not_found)
found_version (ok (some v)) = ok v
found_version (err e) = err e

abbrev pub is_version : ℕ → ℕ → TestScriptVersion → Bool
is_version script_id n v = (v.test_script_id == script_id) && (v.version == n)

unfoldable pub get_version : ℕ → ℕ → Db → Result TestScriptVersion
get_version script_id version_number db =
    found_version (one_or_none (select (is_version script_id version_number) db.versions))
