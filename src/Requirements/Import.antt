-- ===== src/Requirements/Import.antt =====
-- The import of a Word document: `_parse_docx` of
-- backend/app/services/requirement_service.py, and the rows of `bulk_create`. python-docx is a
-- parameter: its paragraphs, stripped.
use Prim.Native.Char.{code}
use kaats_v.Base.{
  ℕ, zero, suc, ◌+◌, Bool, true, false, ◌&&◌, not, Option, none, some, List, [], ◌∷◌, ◌++◌, String,
  ltb, ◌==◌, if◌then◌else◌, select,
}
use kaats_v.Schema.{Db, Requirement, RequirementStatus}

-- `len(text)`
unfoldable pub size : String → ℕ
size String.[] = 0
size (String.◌∷◌ c s) = suc (size s)

-- `text[:n]`
unfoldable pub cut : ℕ → String → String
cut zero s = String.[]
cut (suc n) String.[] = String.[]
cut (suc n) (String.◌∷◌ c s) = String.◌∷◌ c (cut n s)

-- `text.endswith(".")`
unfoldable pub ends_with_dot : String → Bool
ends_with_dot String.[] = false
ends_with_dot (String.◌∷◌ c String.[]) = code c == b'.'
ends_with_dot (String.◌∷◌ c (String.◌∷◌ d s)) = ends_with_dot (String.◌∷◌ d s)

abbrev pub append : String → String → String
append String.[] t = t
append (String.◌∷◌ c s) t = String.◌∷◌ c (append s t)

-- `" ".join(lines)`
unfoldable pub join_lines : List String → String
join_lines [] = String.[]
join_lines (x ∷ []) = x
join_lines (x ∷ y ∷ xs) = append x (append " " (join_lines (y ∷ xs)))

abbrev pub is_empty : String → Bool
is_empty String.[] = true
is_empty (String.◌∷◌ c s) = false

-- `a or b` of texts
abbrev pub or_text : String → String → String
or_text a b = if is_empty a then b else a

pub record Preview : Type 0 where
  pub title : String
  pub description : String
  pub source_type : String
  pub business_domain : Option String
  pub priority : String

-- The defaults of the schema.
abbrev pub new_preview : String → String → Preview
new_preview title description = record {
  title = title;
  description = description;
  source_type = "import";
  business_domain = none;
  priority = "medium";
}

unfoldable pub is_heading : String → Bool
is_heading para = ltb (size para) 150 && not (ends_with_dot para)

abbrev pub preview : String → List String → Preview
preview title lines = new_preview title (or_text (join_lines lines) title)

-- `if current_title: results.append(...)`
abbrev pub closed : Option String → List String → List Preview → List Preview
closed none lines rest = rest
closed (some title) lines rest = if is_empty title then rest else preview title lines ∷ rest

abbrev pub closed_if : Bool → Option String → List String → List Preview → List Preview
closed_if true title lines rest = closed title lines rest
closed_if false title lines rest = rest

-- The loop over the paragraphs and the step behind it.
unfoldable pub sections : List String → Option String → List String → List Preview
sections [] title lines = closed title lines []
sections (p ∷ ps) title lines =
    let heading = is_heading p in
    closed_if heading title lines (
      sections ps (if heading then some (cut 500 p) else title)
        (if heading then [] else lines ++ p ∷ []))

abbrev pub unless_empty : List Preview → Preview → List Preview
unless_empty [] fallback = fallback ∷ []
unless_empty (r ∷ rs) fallback = r ∷ rs

abbrev pub parse_paragraphs : List String → List Preview
parse_paragraphs [] = new_preview "Imported" "No content" ∷ []
parse_paragraphs (p ∷ ps) =
    unless_empty (sections (p ∷ ps) none []) (new_preview (cut 500 p) (join_lines (p ∷ ps)))

-- `[p.text.strip() for p in doc.paragraphs if p.text.strip()]`
unfoldable pub parse_docx : List String → List Preview
parse_docx stripped = parse_paragraphs (select (λ p. not (is_empty p)) stripped)

-- `p.business_domain or default_domain`
abbrev pub or_domain : Option String → Option String → Option String
or_domain none d = d
or_domain (some s) d = if is_empty s then d else some s

-- `bulk_create`: a draft for each preview.
abbrev pub imported : ℕ → ℕ → ℕ → ℕ → Option String → Preview → Requirement
imported id now system_id company_id domain p = record {
  id = id;
  system_id = system_id;
  company_id = company_id;
  title = p.title;
  description = p.description;
  status = RequirementStatus.draft;
  business_domain = or_domain p.business_domain domain;
  priority = or_text p.priority "medium";
  source_type = or_text p.source_type "import";
  created_at = now;
  is_deleted = false;
  deleted_at = none;
}

unfoldable pub bulk_create : ℕ → ℕ → ℕ → Option String → List Preview → Db → Db
bulk_create now system_id company_id domain [] db = db
bulk_create now system_id company_id domain (p ∷ ps) db =
    bulk_create now system_id company_id domain ps (record db {
      requirements = imported db.next_id now system_id company_id domain p ∷ db.requirements;
      next_id = db.next_id + 1;
    })
