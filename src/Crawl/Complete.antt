-- ===== src/Crawl/Complete.antt =====
-- That the crawl is offered every page that it has not visited.
use kaats_v.Base.{
  ℕ, zero, suc, ◌<◌, ◌≡◌, refl, inl, inr, true, false, ◌||◌, List, [], ◌∷◌, some, String, arith,
  Bool-cases, length, ok,
}
use kaats_v.Memory.{members, find, elem_text, starts_with}
use kaats_v.Crawl.{
  Crawl, offered, distinct_texts, same_origin, base_of, dedupe, take, get_unvisited_links,
}
use kaats_v.Crawl.Links.{bases, MayOffer, remaining, offers, get_unvisited_links-offers}
use text.Mathlib.Text.{◌==◌ as str_eq}
use text.Mathlib.TextEquality.{eq_iff}

elem-distinct :
    (u : String) (seen xs : List String)
    → elem_text u xs ≡ true
    → (elem_text u seen || elem_text u (distinct_texts seen xs)) ≡ true
unfolding distinct_texts elem_text
elem-distinct u seen [] h = absurd (cc)
elem-distinct u seen (x ∷ xs) h = ground (arith, eq_iff x u, elem-distinct u (x ∷ seen) xs)

elem-same_origin :
    (origin u : String) (xs : List String)
    → starts_with origin u ≡ true
    → elem_text u xs ≡ true
    → elem_text u (same_origin origin xs) ≡ true
unfolding same_origin elem_text
elem-same_origin origin u [] s h = absurd (cc)
elem-same_origin origin u (x ∷ xs) s h = elim (Bool-cases (str_eq x u)) [
  | inl e ↦
      let q : x ≡ u = (eq_iff x u).0 e in
      let t : starts_with origin x ≡ true = rw q s in rw (t, e) refl
  | inr e ↦ ground (arith, elem-same_origin origin u xs)
]

elem-remaining :
    (vs : List String) (u : String) (xs : List String)
    → elem_text u vs ≡ false
    → elem_text u xs ≡ true
    → elem_text u (remaining vs xs) ≡ true
unfolding remaining elem_text
elem-remaining vs u [] s h = absurd (cc)
elem-remaining vs u (x ∷ xs) s h = elim (Bool-cases (str_eq x u)) [
  | inl e ↦
      let q : x ≡ u = (eq_iff x u).0 e in let t : elem_text x vs ≡ false = rw q s in rw (t, e) refl
  | inr e ↦ ground (arith, elem-remaining vs u xs)
]

elem-dedupe-bases :
    (u : String) (seen xs : List String)
    → elem_text u xs ≡ true
    → (elem_text (base_of u) seen || elem_text (base_of u) (bases (dedupe seen xs))) ≡ true
unfolding dedupe elem_text
elem-dedupe-bases u seen [] h = absurd (cc)
elem-dedupe-bases u seen (x ∷ xs) h = elim (Bool-cases (str_eq x u)) [
  | inl e ↦
      let q : x ≡ u = (eq_iff x u).0 e in rw q (ground (arith, eq_iff (base_of u) (base_of u)))
  | inr e ↦ ground (
    arith,
    eq_iff (base_of x) (base_of u),
    elem-dedupe-bases u seen xs,
    elem-dedupe-bases u (base_of x ∷ seen) xs,
  )
]

take-all : (n : ℕ) (xs : List String) → length (take n xs) < n → take n xs ≡ xs
unfolding take
take-all zero xs h = absurd (omega arith)
take-all (suc n) [] h = refl
take-all (suc n) (x ∷ xs) h = ground (arith, take-all n xs)

-- While the memory holds a set of visited URLs: if fewer links than the bound are offered, then
-- each link of the page that begins with the origin and was not visited is among them, up to its
-- query.
pub get_unvisited_links_complete :
    (n : ℕ) (origin : String) (hrefs vs ls : List String) (c : Crawl) (u : String)
    → find "visited_urls" c.memory ≡ some (members vs)
    → get_unvisited_links n origin hrefs c ≡ (ok (offered ls), c)
    → length ls < n
    → MayOffer origin hrefs vs u
    → elem_text (base_of u) (bases ls) ≡ true
unfolding elem_text
get_unvisited_links_complete n origin hrefs vs ls c u h g l (e, s, v) =
    let page = distinct_texts [] hrefs in
    let rest = remaining vs (same_origin origin page) in
    let same : ls ≡ offers n origin hrefs vs =
      cc (get_unvisited_links-offers n origin hrefs vs c h, g) in
    let all = take-all n (dedupe [] rest) (rw (← same) l) in
    let inside =
      elem-remaining vs u (same_origin origin page) v
        (elem-same_origin origin u page s (elem-distinct u [] hrefs e)) in
    rw (same, all) (elem-dedupe-bases u [] rest inside)
