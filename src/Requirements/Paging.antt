-- ===== src/Requirements/Paging.antt =====
-- The pages of a system's requirements: `list_for_system_paginated` of
-- backend/app/services/requirement_service.py, with the cursors of backend/app/schemas/common.py.
use kaats_v.Base.{
  ℕ, zero, suc, Bool, true, false, ◌&&◌, Option, none, some, List, [], ◌∷◌, String, ltb, leb, ◌==◌,
  if◌then◌else◌, is_none, length, select,
}
use kaats_v.Schema.{Db, Requirement, RequirementStatus}
use text.Mathlib.Text.{◌==◌ as str_eq}

-- A cursor is the base64 text of a point in time, or a text that `decode_cursor` refuses.
pub data Cursor : Type 0 where
  encoded : ℕ → Cursor
  garbled : String → Cursor

-- Filters, each missing or a text that is not empty; `title_has` is the test of `ilike`.
pub record Filter : Type 0 where
  pub bpo_domain : Option String
  pub business_domain : Option String
  pub has_status : Option (RequirementStatus → Bool)
  pub priority : Option String
  pub source_type : Option String
  pub title_has : Option (String → Bool)

abbrev pub text_is : Option String → String → Bool
text_is none t = true
text_is (some s) t = str_eq s t

abbrev pub domain_is : Option String → Option String → Bool
domain_is none d = true
domain_is (some s) none = false
domain_is (some s) (some d) = str_eq s d

abbrev pub test_of : {A : Type 0} → Option (A → Bool) → A → Bool
test_of none a = true
test_of (some p) a = p a

-- `bpo_domain or business_domain`
abbrev pub effective_domain : Filter → Option String
effective_domain f = if is_none f.bpo_domain then f.business_domain else f.bpo_domain

abbrev pub matches : ℕ → Filter → Requirement → Bool
matches system_id f q =
    (q.system_id == system_id)
    && (is_none q.deleted_at
        && (domain_is (effective_domain f) q.business_domain
            && (test_of f.has_status q.status
                && (text_is f.priority q.priority
                    && (text_is f.source_type q.source_type && test_of f.title_has q.title)))))

unfoldable pub insert_desc : Requirement → List Requirement → List Requirement
insert_desc q [] = q ∷ []
insert_desc q (x ∷ xs) = if leb x.created_at q.created_at then q ∷ x ∷ xs else x ∷ insert_desc q xs

-- `order_by(created_at.desc())`; which of two rows of one time comes first is left open by SQL.
unfoldable pub sort_desc : List Requirement → List Requirement
sort_desc [] = []
sort_desc (q ∷ qs) = insert_desc q (sort_desc qs)

unfoldable pub ordered : ℕ → Filter → Db → List Requirement
ordered system_id f db = sort_desc (select (matches system_id f) db.requirements)

abbrev pub drop : ℕ → List Requirement → List Requirement
drop zero xs = xs
drop (suc n) [] = []
drop (suc n) (x ∷ xs) = drop n xs

abbrev pub take : ℕ → List Requirement → List Requirement
take zero xs = []
take (suc n) [] = []
take (suc n) (x ∷ xs) = x ∷ take n xs

unfoldable pub before : ℕ → List Requirement → List Requirement
before cutoff xs = select (λ (q : Requirement). ltb q.created_at cutoff) xs

-- A cursor that does not decode is ignored, and so is the offset beside it.
abbrev pub from_cursor : Option Cursor → ℕ → List Requirement → List Requirement
from_cursor none offset xs = drop offset xs
from_cursor (some (encoded cutoff)) offset xs = before cutoff xs
from_cursor (some (garbled s)) offset xs = xs

-- `items[-1].created_at`
unfoldable pub last_time : List Requirement → Option ℕ
last_time [] = none
last_time (x ∷ []) = some x.created_at
last_time (x ∷ y ∷ xs) = last_time (y ∷ xs)

abbrev pub as_cursor : Option ℕ → Option Cursor
as_cursor none = none
as_cursor (some t) = some (encoded t)

pub record Page : Type 0 where
  pub items : List Requirement
  pub total : ℕ
  pub next_cursor : Option Cursor

abbrev pub page_of : ℕ → ℕ → List Requirement → Page
page_of total limit items = record {
  items = items;
  total = total;
  next_cursor = if length items == limit then as_cursor (last_time items) else none;
}

unfoldable pub list_for_system_paginated : ℕ → Filter → ℕ → ℕ → Option Cursor → Db → Page
list_for_system_paginated system_id f limit offset cursor db =
    let q = ordered system_id f db in
    page_of (length q) limit (take limit (from_cursor cursor offset q))
