-- ===== src/Tests/Pages.antt =====
-- Pages of a system's requirements, and a document with sections.
use kaats_v.Base.{
  ℕ, ◌+◌, ◌<◌, ◌≡◌, All, refl, Bool, false, some, none, List, [], ◌∷◌, String, arith, length, count,
  select,
}
use kaats_v.Schema.{Db, Requirement, RequirementStatus}
use kaats_v.Requirements.Paging.{sort_desc, insert_desc, Filter, matches, ordered}
use kaats_v.Requirements.Walk.{DistinctTimes, walk, walk-ordered}
use kaats_v.Requirements.Skips.{same_time-skipped}
use kaats_v.Requirements.Import.{ends_with_dot, size, is_heading, parse_docx}
use kaats_v.Requirements.Sections.{titles, parse_docx-headings}
use kaats_v.Tests.Data.{two_companies}

abbrev at_time : ℕ → ℕ → Requirement
at_time id now = record {
  id = id;
  system_id = 30;
  company_id = 20;
  title = "Pay";
  description = "Bills are paid";
  status = RequirementStatus.active;
  business_domain = none;
  priority = "medium";
  source_type = "manual";
  created_at = now;
  is_deleted = false;
  deleted_at = none;
}

abbrev no_filter : Filter
no_filter = record {
  bpo_domain = none;
  business_domain = none;
  has_status = none;
  priority = none;
  source_type = none;
  title_has = none;
}

abbrev three : Db
three = record two_companies { requirements = at_time 71 5 ∷ at_time 72 9 ∷ at_time 73 7 ∷ [] }

three-DistinctTimes : DistinctTimes (select (matches 30 no_filter) three.requirements)
unfolding select
three-DistinctTimes =
    ((λ e. omega (arith, e), (λ e. omega (arith, e), tt)), ((λ e. omega (arith, e), tt), (tt, tt)))

walk-ordered_example :
    let rows = ordered 30 no_filter three in
    (walk 30 no_filter 2 three (length rows + 1) none ≡ some rows)
    × ((p : Requirement → Bool)
        → count p rows ≡ count p (select (matches 30 no_filter) three.requirements))
walk-ordered_example = walk-ordered 30 no_filter 1 three three-DistinctTimes

abbrev twins : Db
twins = record two_companies { requirements = at_time 71 5 ∷ at_time 72 5 ∷ [] }

same_time-skipped_example :
    (later : List Requirement) × (walk 30 no_filter 1 twins 3 none ≡ some (at_time 71 5 ∷ later))
    × All (λ z. z.created_at < 5) later
unfolding ordered sort_desc select insert_desc
same_time-skipped_example =
    same_time-skipped 30 no_filter none twins [] (at_time 71 5) (at_time 72 5) [] refl refl

abbrev document : List String
document = "Login" ∷ "A user logs in." ∷ "Payment" ∷ []

parse_docx-headings_example :
    (titles (parse_docx ("Written by Ann." ∷ document)) ≡ select is_heading document)
    × (parse_docx ("Written by Ann." ∷ document) ≡ parse_docx document)
unfolding is_heading size ends_with_dot
parse_docx-headings_example =
    parse_docx-headings ("Written by Ann." ∷ []) "Login" ("A user logs in." ∷ "Payment" ∷ [])
      (refl, tt) refl (refl, (refl, (refl, (refl, tt))))
