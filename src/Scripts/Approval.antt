-- ===== src/Scripts/Approval.antt =====
-- An approved script names its approver and the time of its approval, as long as no update writes
-- the status.
use kaats_v.Base.{
  ℕ, ◌+◌, ◌≡◌, ◌≢◌, refl, ◌⊎◌, true, false, inl, inr, none, some, List, [], ◌∷◌, String, arith, All,
  All-get, delete, replace, All-replace, All-delete, get, is_some, Action, commit, ok, get-key,
  get-replace, if◌then◌else◌, ◌||◌, err, http, not_draft, cannot_approve, cannot_reject,
}
use kaats_v.Schema.{Db, TestScript, TestScriptStatus, is_approved}
use kaats_v.Scripts.Cases.{scripts-add_cases}
use kaats_v.Scripts.{
  new_script, create_version, is_draft, is_in_review, TestScriptCreate, TestScriptUpdate,
  create_with_context, update_script, update_with_version, apply_update, next_version,
  delete_script, soft_delete_script, submit_for_review, approve_script, approved_script,
  reject_script,
}

abbrev pub IsRecorded : TestScript → Type 0
IsRecorded s =
    (is_approved s.status ≡ false)
    ⊎ ((is_some s.approved_by ≡ true) × (is_some s.approved_at ≡ true))

abbrev pub ApprovalRecorded : Db → Type 0
ApprovalRecorded db = All IsRecorded db.scripts

-- One request to the service.
pub data ScriptRequest : Type 0 where
  create : ℕ → TestScriptCreate → ℕ → ℕ → ScriptRequest
  update_plain update_versioned : ℕ → TestScriptUpdate → ℕ → ScriptRequest
  hard_delete submit : ℕ → ScriptRequest
  soft_delete : ℕ → ℕ → ScriptRequest
  approve : ℕ → ℕ → ℕ → ScriptRequest
  reject : ℕ → String → ℕ → ScriptRequest

abbrev pub stored_by : {A : Type 0} → Action Db A → Db → Db
stored_by m db = (m db).1

-- The rows after a request whose session is committed, or rolled back where the method raises.
unfoldable pub serve : ScriptRequest → Db → Db
serve (create sys body company user) =
    stored_by (commit (create_with_context sys body company user))
serve (update_plain i body user) = stored_by (commit (update_script i body))
serve (update_versioned i body user) = stored_by (commit (update_with_version i body user))
serve (hard_delete i) = stored_by (commit (delete_script i))
serve (submit i) = stored_by (commit (submit_for_review i))
serve (soft_delete now i) = stored_by (commit (soft_delete_script now i))
serve (approve now i approver) = stored_by (commit (approve_script now i approver))
serve (reject i comment user) = stored_by (commit (reject_script i comment user))

unfoldable pub serve_all : List ScriptRequest → Db → Db
serve_all [] db = db
serve_all (q ∷ qs) db = serve_all qs (serve q db)

-- The request writes no `approved` into the status column by an update.
abbrev pub KeepsApproval : ScriptRequest → Type 0
KeepsApproval (update_plain i body user) = body.status ≢ some TestScriptStatus.approved
KeepsApproval (update_versioned i body user) = body.status ≢ some TestScriptStatus.approved
KeepsApproval _ = Unit

apply_update-IsRecorded :
    (body : TestScriptUpdate) (s : TestScript)
    → body.status ≢ some TestScriptStatus.approved
    → IsRecorded s
    → IsRecorded (apply_update body s)
unfolding apply_update
apply_update-IsRecorded body s n h = ground arith

next_version-IsRecorded :
    (body : TestScriptUpdate) (s : TestScript)
    → body.status ≢ some TestScriptStatus.approved
    → IsRecorded s
    → IsRecorded (next_version body s)
unfolding apply_update
next_version-IsRecorded body s n h = ground arith

-- How a request on one script changes the table: not at all, or the row that the key finds is
-- written back as `f` of it.
abbrev Rewrites : ℕ → (TestScript → TestScript) → List TestScript → List TestScript → Type 0
Rewrites i f xs ys =
    (ys ≡ xs)
    ⊎ ((s : TestScript) × (get TestScript.id i xs ≡ some s) × (ys ≡ replace TestScript.id (f s) xs))

Rewrites-All :
    (i : ℕ) (f : TestScript → TestScript) (xs ys : List TestScript)
    → ((s : TestScript) → IsRecorded s → IsRecorded (f s))
    → Rewrites i f xs ys
    → All IsRecorded xs
    → All IsRecorded ys
Rewrites-All i f xs ys k (inl e) h = rw e h
Rewrites-All i f xs ys k (inr (s, e, r)) h = rw r (
    All-replace TestScript.id IsRecorded (f s) xs h
      (k s (All-get TestScript.id IsRecorded i s xs h e)))

update_plain-Rewrites :
    (i : ℕ) (body : TestScriptUpdate) (user : ℕ) (db : Db)
    → Rewrites i (apply_update body) db.scripts (serve (update_plain i body user) db).scripts
unfolding serve commit update_script
update_plain-Rewrites i body user db = ground arith

update_versioned-Rewrites :
    (i : ℕ) (body : TestScriptUpdate) (user : ℕ) (db : Db)
    → Rewrites i (next_version body) db.scripts (serve (update_versioned i body user) db).scripts
unfolding serve commit update_with_version
update_versioned-Rewrites i body user db = ground arith

submit-Rewrites :
    (i : ℕ) (db : Db)
    → Rewrites i
        (λ s. record s { status = TestScriptStatus.in_review })
        db.scripts
        (serve (submit i) db).scripts
unfolding serve commit submit_for_review
submit-Rewrites i db = ground arith

soft_delete-Rewrites :
    (now i : ℕ) (db : Db)
    → Rewrites i
        (λ s. record s { deleted_at = some now })
        db.scripts
        (serve (soft_delete now i) db).scripts
unfolding serve commit soft_delete_script
soft_delete-Rewrites now i db = ground arith

approve-Rewrites :
    (now i user : ℕ) (db : Db)
    → Rewrites i (approved_script now user) db.scripts (serve (approve now i user) db).scripts
unfolding serve commit approve_script
approve-Rewrites now i user db = ground arith

reject-Rewrites :
    (i : ℕ) (c : String) (user : ℕ) (db : Db)
    → Rewrites i
        (λ s. record s { status = TestScriptStatus.draft })
        db.scripts
        (serve (reject i c user) db).scripts
unfolding serve commit reject_script
reject-Rewrites i c user db = ground arith

create-IsRecorded :
    (sys : ℕ) (body : TestScriptCreate) (company user : ℕ) (db : Db)
    → ApprovalRecorded db
    → ApprovalRecorded (serve (create sys body company user) db)
unfolding serve commit create_with_context create_version
create-IsRecorded sys body company user db h =
    let s = new_script db.next_id sys body company user in
    let db' = record db { scripts = s ∷ db.scripts; next_id = db.next_id + 1 } in
    rw (scripts-add_cases s.id body.cases db') (inl refl, h)

hard_delete-cases :
    (i : ℕ) (db : Db)
    → ((serve (hard_delete i) db).scripts ≡ db.scripts)
      ⊎ ((serve (hard_delete i) db).scripts ≡ delete TestScript.id i db.scripts)
unfolding serve commit delete_script
hard_delete-cases i db = ground arith

hard_delete-IsRecorded :
    (i : ℕ) (db : Db) → ApprovalRecorded db → ApprovalRecorded (serve (hard_delete i) db)
hard_delete-IsRecorded i db h = elim (hard_delete-cases i db) [
  | inl e ↦ rw e h
  | inr e ↦ rw e (All-delete TestScript.id IsRecorded i db.scripts h)
]

pub serve-ApprovalRecorded :
    (q : ScriptRequest) (db : Db)
    → KeepsApproval q
    → ApprovalRecorded db
    → ApprovalRecorded (serve q db)
serve-ApprovalRecorded (create sys body company user) db k h =
    create-IsRecorded sys body company user db h
serve-ApprovalRecorded (update_plain i body user) db k h =
    Rewrites-All i (apply_update body) db.scripts _ (λ s. apply_update-IsRecorded body s k)
      (update_plain-Rewrites i body user db) h
serve-ApprovalRecorded (update_versioned i body user) db k h =
    Rewrites-All i (next_version body) db.scripts _ (λ s. next_version-IsRecorded body s k)
      (update_versioned-Rewrites i body user db) h
serve-ApprovalRecorded (hard_delete i) db k h = hard_delete-IsRecorded i db h
serve-ApprovalRecorded (submit i) db k h =
    Rewrites-All i (λ s. record s { status = TestScriptStatus.in_review }) db.scripts _
      (λ s _. inl refl) (submit-Rewrites i db) h
serve-ApprovalRecorded (soft_delete now i) db k h =
    Rewrites-All i (λ s. record s { deleted_at = some now }) db.scripts _ (λ s r. r)
      (soft_delete-Rewrites now i db) h
serve-ApprovalRecorded (approve now i user) db k h =
    Rewrites-All i (approved_script now user) db.scripts _ (λ s _. inr (refl, refl))
      (approve-Rewrites now i user db) h
serve-ApprovalRecorded (reject i comment user) db k h =
    Rewrites-All i (λ s. record s { status = TestScriptStatus.draft }) db.scripts _
      (λ s _. inl refl) (reject-Rewrites i comment user db) h

-- Over any sequence of requests, each committed or rolled back, in which no update writes
-- `approved`: if every approved script names its approver and the time of its approval at first,
-- then so it does at the end.
pub serve_all-ApprovalRecorded :
    (qs : List ScriptRequest) (db : Db)
    → All KeepsApproval qs
    → ApprovalRecorded db
    → ApprovalRecorded (serve_all qs db)
unfolding serve_all
serve_all-ApprovalRecorded [] db k h = h
serve_all-ApprovalRecorded (q ∷ qs) db k h =
    serve_all-ApprovalRecorded qs (serve q db) k.1 (serve-ApprovalRecorded q db k.0 h)

-- The update endpoint approves without the review: a live script in whatever status becomes
-- approved, with its approver and approval time unchanged, also where it has none.
pub update_with_version-bypass :
    (i : ℕ) (body : TestScriptUpdate) (user : ℕ) (db : Db) (s : TestScript)
    → get TestScript.id i db.scripts ≡ some s
    → s.deleted_at ≡ none
    → body.status ≡ some TestScriptStatus.approved
    → (t : TestScript) × (get TestScript.id i (serve (update_versioned i body user) db).scripts
        ≡ some t)
      × (t.status ≡ TestScriptStatus.approved)
      × (t.approved_by ≡ s.approved_by)
      × (t.approved_at ≡ s.approved_at)
unfolding serve commit update_with_version apply_update
update_with_version-bypass i body user db s stored d st =
    let key : s.id ≡ i = get-key TestScript.id i s db.scripts stored in
    (
      next_version body s,
      ground (arith, get-replace TestScript.id i (next_version body s) s db.scripts),
      ground arith,
      ground arith,
      ground arith,
    )

-- How the review methods end on a live script: `submit_for_review` only moves a draft to review,
-- `approve` moves a draft or a script in review to approved and records who and when, `reject`
-- moves one in review or approved back to draft; from any other status each raises 422.
pub review_outcomes :
    (now i user : ℕ) (comment : String) (db : Db) (s : TestScript)
    → get TestScript.id i db.scripts ≡ some s
    → s.deleted_at ≡ none
    → ((submit_for_review i db).0 ≡ (
        if is_draft s.status
        then ok (record s { status = TestScriptStatus.in_review })
        else err (http 422 not_draft)))
      × ((approve_script now i user db).0 ≡ (
          if is_draft s.status || is_in_review s.status
          then ok (approved_script now user s)
          else err (http 422 cannot_approve)))
      × ((reject_script i comment user db).0 ≡ (
          if is_in_review s.status || is_approved s.status
          then ok (record s { status = TestScriptStatus.draft })
          else err (http 422 cannot_reject)))
unfolding submit_for_review approve_script reject_script
review_outcomes now i user comment db s stored d = (ground arith, ground arith, ground arith)
