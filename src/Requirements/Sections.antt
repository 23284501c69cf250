-- ===== src/Requirements/Sections.antt =====
-- The sections of an imported document.
use kaats_v.Base.{
  ℕ, zero, suc, ◌≤◌, ◌≡◌, refl, ap, ◌∙◌, sym, true, false, not, Option, none, some, List, [], ◌∷◌,
  ◌++◌, String, arith, Bool-cases, inl, inr, select, All,
}
use kaats_v.Requirements.Import.{
  size, cut, join_lines, is_empty, is_heading, Preview, new_preview, sections, unless_empty,
  parse_paragraphs, parse_docx,
}

abbrev pub titles : List Preview → List String
titles [] = []
titles (r ∷ rs) = r.title ∷ titles rs

abbrev title_list : Option String → List String
title_list none = []
title_list (some t) = t ∷ []

abbrev pub IsText : String → Type 0
IsText p = is_empty p ≡ false

cut-all : (n : ℕ) (s : String) → size s ≤ n → cut n s ≡ s
unfolding cut size
cut-all zero String.[] h = refl
cut-all zero (String.◌∷◌ c s) h = absurd (omega arith)
cut-all (suc n) String.[] h = refl
cut-all (suc n) (String.◌∷◌ c s) h = ap (λ t. String.◌∷◌ c t) (cut-all n s (omega arith))

heading_cut : (p : String) → is_heading p ≡ true → cut 500 p ≡ p
unfolding is_heading
heading_cut p h = cut-all 500 p (ground arith)

-- The titles of the sections, from a state of the loop on.
titles-sections :
    (ps : List String) (title : Option String) (lines : List String)
    → All IsText ps
    → All IsText (title_list title)
    → titles (sections ps title lines) ≡ title_list title ++ select is_heading ps
unfolding sections select
titles-sections [] none lines h k = refl
titles-sections [] (some t) lines h k = rw (k.0) refl
titles-sections (p ∷ ps) none lines h k = elim (Bool-cases (is_heading p)) [
  | inl e ↦ rw (e, heading_cut p e) (titles-sections ps (some p) [] h.1 (h.0, tt))
  | inr e ↦ rw e (titles-sections ps none (lines ++ p ∷ []) h.1 k)
]
titles-sections (p ∷ ps) (some t) lines h k = elim (Bool-cases (is_heading p)) [
  | inl e ↦
      rw (e, heading_cut p e, k.0) (ap (λ l. t ∷ l) (titles-sections ps (some p) [] h.1 (h.0, tt)))
  | inr e ↦ rw e (titles-sections ps (some t) (lines ++ p ∷ []) h.1 k)
]

-- Paragraphs before the first heading leave no trace.
sections-before :
    (pre : List String) (h : String) (rest lines : List String)
    → All (λ p. is_heading p ≡ false) pre
    → is_heading h ≡ true
    → sections (pre ++ h ∷ rest) none lines ≡ sections (h ∷ rest) none []
unfolding sections
sections-before [] h rest lines k e = rw e refl
sections-before (p ∷ pre) h rest lines k e =
    rw (k.0) (sections-before pre h rest (lines ++ p ∷ []) k.1 e)

select-texts : (ps : List String) → All IsText ps → select (λ p. not (is_empty p)) ps ≡ ps
unfolding select
select-texts [] h = refl
select-texts (p ∷ ps) h = rw (h.0, select-texts ps h.1) refl

sections-some :
    (h : String) (rest : List String)
    → All IsText (h ∷ rest)
    → is_heading h ≡ true
    → (fallback : Preview)
    → unless_empty (sections (h ∷ rest) none []) fallback ≡ sections (h ∷ rest) none []
unfolding select
sections-some h rest a e fallback =
    kept (sections (h ∷ rest) none []) (titles-sections (h ∷ rest) none [] a tt)
  where
    kept :
        (rs : List Preview)
        → titles rs ≡ select is_heading (h ∷ rest)
        → unless_empty rs fallback ≡ rs
    kept [] q = absurd (ground (arith, q, e))
    kept (r ∷ rs) q = refl

parse_from :
    (pre : List String) (h : String) (rest : List String)
    → All (λ p. is_heading p ≡ false) pre
    → is_heading h ≡ true
    → All IsText (h ∷ rest)
    → parse_paragraphs (pre ++ h ∷ rest) ≡ sections (h ∷ rest) none []
parse_from [] h rest k e a =
    sections-some h rest a e (new_preview (cut 500 h) (join_lines (h ∷ rest)))
parse_from (p ∷ pre) h rest k e a =
    let fallback = new_preview (cut 500 p) (join_lines (p ∷ (pre ++ h ∷ rest))) in
    ap (λ l. unless_empty l fallback) (sections-before (p ∷ pre) h rest [] k e)
    ∙ sections-some h rest a e fallback

texts_behind : (pre rest : List String) → All IsText (pre ++ rest) → All IsText rest
texts_behind [] rest a = a
texts_behind (p ∷ pre) rest a = texts_behind pre rest a.1

-- Of a document with a heading, whose paragraphs are not empty, there is one section for each
-- heading, in order and under its text; the paragraphs before the first heading are lost, since the
-- result is that of the document without them.
pub parse_docx-headings :
    (pre : List String) (h : String) (rest : List String)
    → All (λ p. is_heading p ≡ false) pre
    → is_heading h ≡ true
    → All IsText (pre ++ h ∷ rest)
    → (titles (parse_docx (pre ++ h ∷ rest)) ≡ select is_heading (h ∷ rest))
      × (parse_docx (pre ++ h ∷ rest) ≡ parse_docx (h ∷ rest))
unfolding parse_docx
parse_docx-headings pre h rest k e a =
    let b = texts_behind pre (h ∷ rest) a in
    let whole =
      ap parse_paragraphs (select-texts (pre ++ h ∷ rest) a) ∙ parse_from pre h rest k e b in
    let part = ap parse_paragraphs (select-texts (h ∷ rest) b) ∙ parse_from [] h rest tt e b in
    (ap titles whole ∙ titles-sections (h ∷ rest) none [] b tt, whole ∙ sym part)
