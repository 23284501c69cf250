-- ===== src/Requirements/Formats.antt =====
-- The import of CSV and JSON files: `_parse_csv` and `_parse_json` of
-- backend/app/services/requirement_service.py. The rows that csv.DictReader yields and the values
-- that json.loads yields are arguments, by the keys that the code reads.
use kaats_v.Base.{
  ℕ, zero, suc, ◌≤◌, ◌≡◌, refl, false, Option, none, some, List, [], ◌∷◌, String, arith,
  if◌then◌else◌, or_else, Bool-cases, inl, inr, All,
}
use kaats_v.Requirements.Import.{size, cut, is_empty, or_text, Preview}

-- `a or b or ... or ""`, each missing or a text.
unfoldable pub first_text : List (Option String) → String
first_text [] = String.[]
first_text (none ∷ xs) = first_text xs
first_text (some s ∷ xs) = let rest = first_text xs in if is_empty s then rest else s

abbrev pub some_text : String → Option String
some_text s = if is_empty s then none else some s

pub record CsvRow : Type 0 where
  pub title : Option String
  pub capital_title : Option String
  pub name : Option String
  pub description : Option String
  pub capital_description : Option String
  pub desc : Option String
  pub business_domain : Option String
  pub domain : Option String
  pub priority : Option String

abbrev pub csv_title : CsvRow → String
csv_title row = first_text (row.title ∷ row.capital_title ∷ row.name ∷ [])

-- `lower` is Python's method on texts.
module _ (lower : String → String) where
  abbrev pub csv_preview : CsvRow → Preview
  csv_preview row = record {
    title = cut 500 (csv_title row);
    description =
        or_text (first_text (row.description ∷ row.capital_description ∷ row.desc ∷ []))
          (csv_title row);
    source_type = "import";
    business_domain = some_text (first_text (row.business_domain ∷ row.domain ∷ []));
    priority = lower (or_text (first_text (row.priority ∷ [])) "medium");
  }

  -- Rows without a title are skipped.
  unfoldable pub parse_csv : List CsvRow → List Preview
  parse_csv [] = []
  parse_csv (row ∷ rows) =
      let rest = parse_csv rows in if is_empty (csv_title row) then rest else csv_preview row ∷ rest

-- An item of a JSON file: a text, an object, or another value, which is skipped.
pub record JsonObject : Type 0 where
  pub title : Option String
  pub name : Option String
  pub description : Option String
  pub desc : Option String
  pub business_domain : Option String
  pub priority : Option String

pub data JsonItem : Type 0 where
  json_text : String → JsonItem
  json_object : JsonObject → JsonItem
  json_other : JsonItem

-- A JSON file: a list of items, an object with a list under `requirements` or `items`, or a single
-- object.
pub data JsonFile : Type 0 where
  json_list json_requirements json_items : List JsonItem → JsonFile
  json_single : JsonObject → JsonFile

abbrev pub items_of : JsonFile → List JsonItem
items_of (json_list xs) = xs
items_of (json_requirements xs) = xs
items_of (json_items xs) = xs
items_of (json_single o) = json_object o ∷ []

abbrev pub json_title : JsonObject → String
json_title o = first_text (o.title ∷ o.name ∷ [])

abbrev pub object_preview : JsonObject → Preview
object_preview o = record {
  title = cut 500 (json_title o);
  description = or_text (first_text (o.description ∷ o.desc ∷ [])) (json_title o);
  source_type = "import";
  business_domain = o.business_domain;
  priority = or_else o.priority "medium";
}

abbrev pub text_preview : String → Preview
text_preview s = record {
  title = cut 500 s;
  description = s;
  source_type = "import";
  business_domain = none;
  priority = "medium";
}

unfoldable pub parse_items : List JsonItem → List Preview
parse_items [] = []
parse_items (json_text s ∷ xs) = text_preview s ∷ parse_items xs
parse_items (json_object o ∷ xs) = object_preview o ∷ parse_items xs
parse_items (json_other ∷ xs) = parse_items xs

unfoldable pub parse_json : JsonFile → List Preview
parse_json f = parse_items (items_of f)

size-cut : (n : ℕ) (s : String) → size (cut n s) ≤ n
unfolding size cut
size-cut zero s = omega arith
size-cut (suc n) String.[] = omega arith
size-cut (suc n) (String.◌∷◌ c s) = omega (arith, size-cut n s)

cut_full : (n : ℕ) (s : String) → is_empty s ≡ false → 1 ≤ size (cut (suc n) s)
unfolding size cut
cut_full n String.[] h = absurd (cc h)
cut_full n (String.◌∷◌ c s) h = omega arith

-- A title that the column and the schema of a requirement take.
abbrev pub FitsTitle : Preview → Type 0
FitsTitle p = (1 ≤ size p.title) × (size p.title ≤ 500)

-- Whatever rows a CSV file has, each requirement that it previews has a title of 1 to 500
-- characters.
pub parse_csv-FitsTitle :
    (lower : String → String) (rows : List CsvRow) → All FitsTitle (parse_csv lower rows)
unfolding parse_csv
parse_csv-FitsTitle lower [] = tt
parse_csv-FitsTitle lower (row ∷ rows) = elim (Bool-cases (is_empty (csv_title row))) [
  | inl e ↦ rw e (parse_csv-FitsTitle lower rows)
  | inr e ↦ rw e (
    (cut_full 499 (csv_title row) e, size-cut 500 (csv_title row)),
    parse_csv-FitsTitle lower rows,
  )
]

-- A JSON file keeps to the upper bound of 500 characters.
pub parse_json-title_bound : (f : JsonFile) → All (λ p. size p.title ≤ 500) (parse_json f)
unfolding parse_json parse_items
parse_json-title_bound f = bound (items_of f)
  where
    bound : (xs : List JsonItem) → All (λ p. size p.title ≤ 500) (parse_items xs)
    bound [] = tt
    bound (json_text s ∷ xs) = (size-cut 500 s, bound xs)
    bound (json_object o ∷ xs) = (size-cut 500 (json_title o), bound xs)
    bound (json_other ∷ xs) = bound xs

-- An object without a title is previewed with an empty one.
json_untitled : (o : JsonObject) → json_title o ≡ "" → (object_preview o).title ≡ ""
unfolding cut
json_untitled o h = rw h refl
