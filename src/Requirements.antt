-- ===== src/Requirements.antt =====
-- Requirements and the cache of their quality scores: RequirementService of
-- backend/app/services/requirement_service.py. The cache is a dictionary of the process; no
-- rollback touches it.
pub mod Quality
pub mod Cache
pub mod Paging
pub mod Formats
pub mod Walk
pub mod Skips
pub mod Import
pub mod Sections
use kaats_v.Base.{
  ℕ, ◌+◌, ◌-◌, Bool, true, false, ◌&&◌, not, Option, none, some, List, [], ◌∷◌, String, ltb, leb,
  ◌==◌, if◌then◌else◌, opt_is, is_none, is_some, or_else, count, get, replace, Result, ok, err,
  http, requirement_not_found, approved_scripts_linked, Action, pure, gets, or_raise, raise_if,
  modify, ◌>>=◌, ◌>>◌,
}
use kaats_v.Schema.{Db, Requirement, RequirementStatus, TestScript, is_approved}

pub data Grade : Type 0 where
  grade_a grade_b grade_c grade_d : Grade

pub data Suggestion : Type 0 where
  title_short title_long description_brief description_more testability measurable vague :
      Suggestion

pub record QualityResult : Type 0 where
  pub score : ℕ
  pub grade : Grade
  pub suggestions : List Suggestion
  pub cached : Bool

-- An entry of `_quality_cache`: the key, the time at which it expires, and the result.
pub record CacheEntry : Type 0 where
  pub key : ℕ
  pub expires : ℕ
  pub result : QualityResult

-- The rows of the session and the cache of the process.
pub record State : Type 0 where
  pub db : Db
  pub cache : List CacheEntry

-- `_load` hides rows that are deleted.
abbrev pub live_requirement : Option Requirement → Option Requirement
live_requirement none = none
live_requirement (some q) = if is_some q.deleted_at then none else some q

unfoldable pub load_requirement : ℕ → Action State Requirement
load_requirement i s =
    or_raise (live_requirement (get Requirement.id i s.db.requirements))
      (http 404 requirement_not_found) s

unfoldable pub put_requirement : Requirement → State → State
put_requirement q s =
    let db = s.db in
    record s { db = record db { requirements = replace Requirement.id q db.requirements } }

-- `_quality_cache.pop(key, None)`
unfoldable pub evict : ℕ → List CacheEntry → List CacheEntry
evict i [] = []
evict i (e ∷ es) = if e.key == i then evict i es else e ∷ evict i es

pub record RequirementUpdate : Type 0 where
  pub title : Option String
  pub description : Option String
  pub business_domain : Option String
  pub status : Option RequirementStatus

abbrev pub updated_requirement : RequirementUpdate → Requirement → Requirement
updated_requirement body q =
    let domain = if is_some body.business_domain then body.business_domain else q.business_domain in
    record q {
      title = or_else body.title q.title;
      description = or_else body.description q.description;
      status = or_else body.status q.status;
      business_domain = domain;
    }

unfoldable pub update_requirement : ℕ → RequirementUpdate → Action State Requirement
update_requirement i body = do
  q ← load_requirement i
  modify (put_requirement (updated_requirement body q))
  modify (λ s. record s { cache = evict i s.cache })
  pure (updated_requirement body q)

-- Approved scripts that are not deleted and name the requirement.
unfoldable pub approved_count : ℕ → Db → ℕ
approved_count i db =
    count
      (λ (s : TestScript).
        opt_is s.requirement_id i && (is_approved s.status && is_none s.deleted_at))
      db.scripts

unfoldable pub soft_delete_requirement : ℕ → ℕ → Action State (Unit {0})
soft_delete_requirement now i = do
  q ← load_requirement i
  linked ← gets (λ s. approved_count i s.db)
  raise_if (ltb 0 linked) (http 409 approved_scripts_linked)
  modify (put_requirement (record q { deleted_at = some now }))

-- `approve` finds deleted rows too.
unfoldable pub approve_requirement : ℕ → Action State Requirement
approve_requirement i = do
  found ← gets (λ s. get Requirement.id i s.db.requirements)
  q ← or_raise found (http 404 requirement_not_found)
  modify (put_requirement (record q { status = RequirementStatus.active }))
  pure (record q { status = RequirementStatus.active })

-- What the score takes from Python's texts: the length, whether the text in lower case contains a
-- word of a list, and whether it contains a digit.
pub record TextMeasures : Type 0 where
  pub len : String → ℕ
  pub is_testable : String → Bool
  pub is_vague : String → Bool
  pub has_digit : String → Bool

-- Points taken off, and what is suggested.
pub record Finding : Type 0 where
  pub points : ℕ
  pub suggested : List Suggestion

abbrev pub no_finding : Finding
no_finding = record { points = 0; suggested = [] }

abbrev pub finding : ℕ → Suggestion → Finding
finding n s = record { points = n; suggested = s ∷ [] }

abbrev pub title_finding : ℕ → Finding
title_finding n =
    if ltb n 10
    then finding 20 title_short
    else if ltb 200 n
    then finding 10 title_long
    else no_finding

abbrev pub description_finding : ℕ → Finding
description_finding n =
    if ltb n 50
    then finding 25 description_brief
    else if ltb n 100
    then finding 10 description_more
    else no_finding

abbrev pub unless : Bool → Finding → Finding
unless true f = no_finding
unless false f = f

abbrev pub grade_of : ℕ → Grade
grade_of score =
    if leb 80 score
    then grade_a
    else if leb 60 score
    then grade_b
    else if leb 40 score
    then grade_c
    else grade_d

abbrev pub append : List Suggestion → List Suggestion → List Suggestion
append [] ys = ys
append (x ∷ xs) ys = x ∷ append xs ys

-- The result of findings; subtraction stops at 0 as `max(0, score)` does.
abbrev pub scored : Finding → Finding → Finding → Finding → Finding → QualityResult
scored t d q n v =
    let score = 100 - t.points - d.points - q.points - n.points in
    record {
      score = score;
      grade = grade_of score;
      suggestions =
          append t.suggested
            (append d.suggested (append q.suggested (append n.suggested v.suggested)));
      cached = false;
    }

module _ (text : TextMeasures) where
  unfoldable pub compute_quality : String → String → QualityResult
  compute_quality title description =
      scored (title_finding (text.len title)) (description_finding (text.len description))
        (unless (text.is_testable description) (finding 15 testability))
        (unless (text.has_digit description) (finding 5 measurable))
        (unless (not (text.is_vague description)) (finding 0 vague))

  -- `cached and cached[0] > now`
  abbrev pub fresh : ℕ → Option CacheEntry → Option QualityResult
  fresh now none = none
  fresh now (some e) = if ltb now e.expires then some e.result else none

  abbrev pub compute_and_store : ℕ → ℕ → Action State QualityResult
  compute_and_store now i = do
    q ← load_requirement i
    modify (λ s. record s {
      cache =
          record { key = i; expires = now + 3600; result = compute_quality q.title q.description }
          ∷ evict i s.cache;
    })
    pure (compute_quality q.title q.description)

  abbrev pub cached_or_computed : ℕ → ℕ → Option QualityResult → Action State QualityResult
  cached_or_computed now i none = compute_and_store now i
  cached_or_computed now i (some r) = pure (record r { cached = true })

  unfoldable pub quality_check : ℕ → ℕ → Action State QualityResult
  quality_check now i = do
    found ← gets (λ s. fresh now (get CacheEntry.key i s.cache))
    cached_or_computed now i found
