-- ===== src/Tests/Scripts.antt =====
-- The script service on one stored script.
use kaats_v.Base.{true, inl, ◌≡◌, refl, none, some, List, [], ◌∷◌, ok, get, count, ◌≢◌}
use kaats_v.Schema.{TestScriptVersion, TestScriptStatus}
use kaats_v.Scripts.{TestScriptCreate, TestScriptUpdate, update_with_version, get_version}
use kaats_v.Scripts.Cases.{TestCaseCreate}
use kaats_v.Scripts.Approval.{
  ScriptRequest, update_versioned, approve, reject, create, serve_all, ApprovalRecorded,
  serve_all-ApprovalRecorded,
}
use kaats_v.Scripts.Versions.{update_with_version-get_version}
use kaats_v.Tests.Data.{login_script, one_script}

abbrev no_change : TestScriptUpdate
no_change = record {
  title = none;
  description = none;
  status = none;
  export_format = none;
  script_content = none;
  business_domain = none;
  tags = none;
  change_summary = none;
}

abbrev close_page : TestScriptUpdate
close_page = record no_change { script_content = some "close" }

abbrev a_case : TestCaseCreate
a_case = record {
  name = "press the button";
  description = none;
  stop_on_failure = true;
  order_index = 0;
  steps =
      record {
        step_number = 1;
        action = "click";
        description = "the button";
        expected_outcome = none;
        parameters = none;
      }
      ∷ [];
}

abbrev logout : TestScriptCreate
logout = record {
  requirement_id = none;
  title = "Logout";
  description = none;
  export_format = "playwright";
  business_domain = none;
  tags = none;
  cases = a_case ∷ [];
}

abbrev requests : List ScriptRequest
requests =
    create 30 logout 20 1
    ∷ approve 7 40 2
    ∷ update_versioned 40 close_page 1
    ∷ reject 40 "no" 2
    ∷ []

close_page-keeps : close_page.status ≢ some TestScriptStatus.approved
close_page-keeps e = cc e

serve_all-ApprovalRecorded_example : ApprovalRecorded (serve_all requests one_script)
serve_all-ApprovalRecorded_example =
    serve_all-ApprovalRecorded requests one_script (tt, (tt, (close_page-keeps, (tt, tt))))
      (inl refl, tt)

update_with_version-get_version_example :
    (v : TestScriptVersion) × (get_version 40 3 (update_with_version 40 close_page 1 one_script).1
      ≡ ok v)
    × (v.script_content ≡ some "open")
    × (v.rendered_content ≡ none)
    × (v.version ≡ 3)
unfolding get count
update_with_version-get_version_example =
    update_with_version-get_version 40 close_page 1 one_script login_script refl refl refl
