-- ===== src/Scripts/Versions.antt =====
-- The version records: what an update writes down, and when a version number stays unambiguous.
use kaats_v.Base.{
  ℕ, ◌+◌, ◌≤◌, ◌≡◌, refl, ap, none, some, List, [], ◌∷◌, String, arith, length, select, count,
  length-select, get, ◌==◌, if◌then◌else◌, ok, err, multiple_results, one_or_none, integrity_error,
  any, get-key, get-replace,
}
use kaats_v.Schema.{Db, TestScript, TestScriptVersion, TestScriptStatus}
use kaats_v.Scripts.Cases.{scripts-add_cases}
use kaats_v.Scripts.{
  text_or, delete_script, is_referenced, new_script, live, create_version, version_or_one,
  TestScriptCreate, TestScriptUpdate, create_with_context, apply_update, update_with_version,
  reject_script, next_version, found_version, is_version, get_version,
}

-- How many records a version number of a script has.
abbrev pub records : ℕ → ℕ → Db → ℕ
records script_id n db = count (is_version script_id n) db.versions

found-many :
    (vs : List TestScriptVersion)
    → 2 ≤ length vs
    → found_version (one_or_none vs) ≡ err multiple_results
found-many [] h = absurd (omega arith)
found-many (v ∷ []) h = absurd (omega arith)
found-many (v ∷ w ∷ vs) h = refl

-- Two records of one number make `scalar_one_or_none` raise.
get_version-ambiguous :
    (i n : ℕ) (db : Db) → 2 ≤ records i n db → get_version i n db ≡ err multiple_results
unfolding get_version
get_version-ambiguous i n db h =
    found-many (select (is_version i n) db.versions)
      (omega (arith, length-select (is_version i n) db.versions))

-- An update of a live script writes one record under the number that the script had, and none
-- under another; the script itself moves to the next number.
pub records-update_with_version :
    (i : ℕ) (body : TestScriptUpdate) (user n : ℕ) (db : Db) (s : TestScript)
    → get TestScript.id i db.scripts ≡ some s
    → s.deleted_at ≡ none
    → (records i n (update_with_version i body user db).1
        ≡ (if version_or_one s.version == n then records i n db + 1 else records i n db))
      × (get TestScript.id i (update_with_version i body user db).1.scripts
          ≡ some (next_version body s))
unfolding update_with_version create_version count apply_update
records-update_with_version i body user n db s stored d =
    let key : s.id ≡ i = get-key TestScript.id i s db.scripts stored in
    (ground arith, ground (arith, get-replace TestScript.id i (next_version body s) s db.scripts))

-- A rejection writes a record under the number of the script and leaves the number as it is.
records-reject_script :
    (i : ℕ) (comment : String) (user : ℕ) (db : Db) (s t : TestScript)
    → get TestScript.id i db.scripts ≡ some s
    → (reject_script i comment user db).0 ≡ ok t
    → (records i (version_or_one s.version) (reject_script i comment user db).1
        ≡ records i (version_or_one s.version) db + 1)
      × (get TestScript.id i (reject_script i comment user db).1.scripts
          ≡ some (record s { status = TestScriptStatus.draft }))
      × (s.deleted_at ≡ none)
unfolding reject_script create_version count
records-reject_script i comment user db s t stored h =
    let key : s.id ≡ i = get-key TestScript.id i s db.scripts stored in
    (
      ground arith,
      ground (
        arith,
        get-replace TestScript.id i (record s { status = TestScriptStatus.draft }) s db.scripts,
      ),
      ground arith,
    )

records-create_with_context :
    (sys : ℕ) (body : TestScriptCreate) (company user : ℕ) (db : Db)
    → let db' = (create_with_context sys body company user db).1 in
      (1 ≤ records db.next_id 1 db')
      × ((s : TestScript) × (get TestScript.id db.next_id db'.scripts ≡ some s)
          × (s.deleted_at ≡ none)
          × (s.version ≡ 1))
unfolding create_with_context create_version new_script count get
records-create_with_context sys body company user db =
    let s = new_script db.next_id sys body company user in
    let db' = record db { scripts = s ∷ db.scripts; next_id = db.next_id + 1 } in
    let same = scripts-add_cases s.id body.cases db' in
    (ground arith, (s, rw same (ground arith), refl, refl))

two_records :
    (m n old new : ℕ) → 1 ≤ old → m ≡ n → new ≡ (if m == n then old + 1 else old) → 2 ≤ new
two_records m n old new one e r = ground arith

-- The first update of a script that `create_with_context` made leaves two records under number 1,
-- the initial one and the snapshot, so looking version 1 up raises MultipleResultsFound, whatever
-- the rows were before.
pub create_update-ambiguous :
    (sys : ℕ) (create : TestScriptCreate) (company user : ℕ) (body : TestScriptUpdate) (editor : ℕ)
    (db : Db)
    → let i = db.next_id in
      let db' = (create_with_context sys create company user db).1 in
      get_version i 1 (update_with_version i body editor db').1 ≡ err multiple_results
create_update-ambiguous sys create company user body editor db =
    let i = db.next_id in
    let db' = (create_with_context sys create company user db).1 in
    let (one, (s, stored, live, first)) = records-create_with_context sys create company user db in
    let (r, _) = records-update_with_version i body editor 1 db' s stored live in
    get_version-ambiguous i 1 (update_with_version i body editor db').1
      (two_records (version_or_one s.version) 1 _ _ one (ap version_or_one first) r)

-- A script that `create_with_context` made cannot be hard deleted: its version record names it, so
-- the database refuses the DELETE with an IntegrityError.
pub create_delete-refused :
    (sys : ℕ) (create : TestScriptCreate) (company user : ℕ) (db : Db)
    → (delete_script db.next_id (create_with_context sys create company user db).1).0
      ≡ err integrity_error
unfolding create_with_context create_version new_script delete_script is_referenced get any
create_delete-refused sys create company user db =
    let s = new_script db.next_id sys create company user in
    let db' = record db { scripts = s ∷ db.scripts; next_id = db.next_id + 1 } in
    rw (scripts-add_cases s.id create.cases db') (ground arith)

-- So too for a script that is rejected and then updated: its number has the record of the
-- rejection and the snapshot.
pub reject_update-ambiguous :
    (i : ℕ) (comment : String) (user : ℕ) (body : TestScriptUpdate) (editor : ℕ) (db : Db)
    (s t : TestScript)
    → get TestScript.id i db.scripts ≡ some s
    → (reject_script i comment user db).0 ≡ ok t
    → get_version i
        (version_or_one s.version)
        (update_with_version i body editor (reject_script i comment user db).1).1
      ≡ err multiple_results
reject_update-ambiguous i comment user body editor db s t stored h =
    let db' = (reject_script i comment user db).1 in
    let (one, stored', live) = records-reject_script i comment user db s t stored h in
    let (r, _) =
      records-update_with_version i body editor (version_or_one s.version) db'
        (record s { status = TestScriptStatus.draft }) stored' live in
    get_version-ambiguous i (version_or_one s.version) (update_with_version i body editor db').1
      (ground arith)

select-none :
    (i n : ℕ) (vs : List TestScriptVersion)
    → count (is_version i n) vs ≡ 0
    → select (is_version i n) vs ≡ []
unfolding count select
select-none i n [] h = refl
select-none i n (v ∷ vs) h = ground (arith, select-none i n vs)

-- Where the number of a live script has no record yet, the update keeps the content that it
-- overwrites: looking that number up yields the script's old content.
pub update_with_version-get_version :
    (i : ℕ) (body : TestScriptUpdate) (user : ℕ) (db : Db) (s : TestScript)
    → get TestScript.id i db.scripts ≡ some s
    → s.deleted_at ≡ none
    → records i (version_or_one s.version) db ≡ 0
    → (v : TestScriptVersion) × (get_version i
          (version_or_one s.version)
          (update_with_version i body user db).1
        ≡ ok v)
      × (v.script_content ≡ s.script_content)
      × (v.rendered_content ≡ s.rendered_content)
      × (v.version ≡ version_or_one s.version)
unfolding update_with_version create_version get_version select
update_with_version-get_version i body user db s stored d none_yet =
    let key : s.id ≡ i = get-key TestScript.id i s db.scripts stored in
    (
      record {
        id = db.next_id;
        test_script_id = s.id;
        version = version_or_one s.version;
        script_content = s.script_content;
        rendered_content = s.rendered_content;
        change_summary = text_or body.change_summary "Content updated";
        created_by = some user;
      },
      ground (arith, select-none i (version_or_one s.version) db.versions none_yet),
      refl,
      refl,
      refl,
    )

-- The updates of one script, one request after the other.
unfoldable pub update_each : ℕ → List TestScriptUpdate → ℕ → Db → Db
update_each i [] user db = db
update_each i (body ∷ bodies) user db =
    update_each i bodies user (update_with_version i body user db).1

-- A live script can be updated any number of times, and each update counts its version up by one.
pub update_each-version :
    (i : ℕ) (bodies : List TestScriptUpdate) (user : ℕ) (db : Db) (s : TestScript)
    → get TestScript.id i db.scripts ≡ some s
    → s.deleted_at ≡ none
    → 1 ≤ s.version
    → (t : TestScript) × (get TestScript.id i (update_each i bodies user db).scripts ≡ some t)
      × (t.deleted_at ≡ none)
      × (t.version ≡ s.version + length bodies)
unfolding update_each
update_each-version i [] user db s stored d p = (s, stored, d, omega arith)
update_each-version i (body ∷ bodies) user db s stored d p =
    let (_, stored') = records-update_with_version i body user 0 db s stored d in
    let (t, found, live, v) =
      update_each-version i bodies user (update_with_version i body user db).1 (next_version body s)
        stored' (unfold apply_update in d) (ground arith) in
    (t, found, live, ground arith)
