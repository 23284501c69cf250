-- ===== src/Crawl/Links.antt =====
-- The links that a page offers to the crawl.
use kaats_v.Base.{
  ℕ, zero, suc, ◌≤◌, ◌≡◌, refl, inl, inr, Bool, true, false, List, [], ◌∷◌, some, String, arith,
  if◌then◌else◌, Bool-cases, length, All, ok,
}
use kaats_v.Memory.{members, find, elem_text, starts_with, WorkingMemory, in_set}
use kaats_v.Crawl.{
  Crawl, offered, distinct_texts, same_origin, unvisited, base_of, dedupe, take,
  get_unvisited_links,
}
use text.Mathlib.TextEquality.{eq_iff}

-- The base of no two links is the same.
abbrev pub bases : List String → List String
bases [] = []
bases (x ∷ xs) = base_of x ∷ bases xs

abbrev pub no_repeats : List String → Bool
no_repeats [] = true
no_repeats (x ∷ xs) = if elem_text x xs then false else no_repeats xs

length-take : (n : ℕ) (xs : List String) → length (take n xs) ≤ n
unfolding take
length-take zero xs = omega arith
length-take (suc n) [] = omega arith
length-take (suc n) (x ∷ xs) = omega (arith, length-take n xs)

elem-bases-take :
    (b : String) (n : ℕ) (xs : List String)
    → elem_text b (bases xs) ≡ false
    → elem_text b (bases (take n xs)) ≡ false
unfolding take elem_text
elem-bases-take b zero xs h = refl
elem-bases-take b (suc n) [] h = refl
elem-bases-take b (suc n) (x ∷ xs) h = ground (arith, elem-bases-take b n xs)

no_repeats-take :
    (n : ℕ) (xs : List String)
    → no_repeats (bases xs) ≡ true
    → no_repeats (bases (take n xs)) ≡ true
unfolding take
no_repeats-take zero xs h = refl
no_repeats-take (suc n) [] h = refl
no_repeats-take (suc n) (x ∷ xs) h =
    ground (arith, elem-bases-take (base_of x) n xs, no_repeats-take n xs)

-- A base that was seen before is not among those of the result.
elem-dedupe :
    (b : String) (seen xs : List String)
    → elem_text b seen ≡ true
    → elem_text b (bases (dedupe seen xs)) ≡ false
unfolding dedupe elem_text
elem-dedupe b seen [] h = refl
elem-dedupe b seen (x ∷ xs) h = elim (Bool-cases (elem_text (base_of x) seen)) [
  | inl e ↦ rw e (elem-dedupe b seen xs h)
  | inr e ↦ rw e (ground (arith, eq_iff (base_of x) b, elem-dedupe b (base_of x ∷ seen) xs))
]

pub elem_text_self : (s : String) (xs : List String) → elem_text s (s ∷ xs) ≡ true
unfolding elem_text
elem_text_self s xs = ground (arith, eq_iff s s)

no_repeats-dedupe : (seen xs : List String) → no_repeats (bases (dedupe seen xs)) ≡ true
unfolding dedupe
no_repeats-dedupe seen [] = refl
no_repeats-dedupe seen (x ∷ xs) = ground (
  arith,
  elem-dedupe (base_of x) (base_of x ∷ seen) xs,
  elem_text_self (base_of x) seen,
  no_repeats-dedupe seen xs,
  no_repeats-dedupe (base_of x ∷ seen) xs,
)

-- A link may be offered: it is on the page, of the origin, and was not visited.
abbrev pub MayOffer : String → List String → List String → String → Type 0
MayOffer origin hrefs visited u =
    (elem_text u hrefs ≡ true) × (starts_with origin u ≡ true) × (elem_text u visited ≡ false)

module _ (P : String → Type 0) where
  All-take : (n : ℕ) (xs : List String) → All P xs → All P (take n xs)
  unfolding take
  All-take zero xs h = tt
  All-take (suc n) [] h = tt
  All-take (suc n) (x ∷ xs) h = (h.0, All-take n xs h.1)

  All-dedupe : (seen xs : List String) → All P xs → All P (dedupe seen xs)
  unfolding dedupe
  All-dedupe seen [] h = tt
  All-dedupe seen (x ∷ xs) h = elim (Bool-cases (elem_text (base_of x) seen)) [
    | inl e ↦ rw e (All-dedupe seen xs h.1)
    | inr e ↦ rw e (h.0, All-dedupe (base_of x ∷ seen) xs h.1)
  ]

  All-distinct : (seen xs : List String) → All P xs → All P (distinct_texts seen xs)
  unfolding distinct_texts
  All-distinct seen [] h = tt
  All-distinct seen (x ∷ xs) h = elim (Bool-cases (elem_text x seen)) [
    | inl e ↦ rw e (All-distinct (x ∷ seen) xs h.1)
    | inr e ↦ rw e (h.0, All-distinct (x ∷ seen) xs h.1)
  ]

-- The links that are not in a list.
unfoldable pub remaining : List String → List String → List String
remaining vs [] = []
remaining vs (x ∷ xs) = if elem_text x vs then remaining vs xs else x ∷ remaining vs xs

unvisited-members :
    (m : WorkingMemory) (vs xs : List String)
    → find "visited_urls" m ≡ some (members vs)
    → unvisited m xs ≡ ok (remaining vs xs)
unfolding unvisited remaining in_set
unvisited-members m vs [] h = refl
unvisited-members m vs (x ∷ xs) h = elim (Bool-cases (elem_text x vs)) [
  | inl e ↦ rw (h, e) (unvisited-members m vs xs h)
  | inr e ↦ rw (h, e, unvisited-members m vs xs h) refl
]

pub elem_weaken :
    (u x : String) (xs : List String) → elem_text u xs ≡ true → elem_text u (x ∷ xs) ≡ true
unfolding elem_text
elem_weaken u x xs h = ground arith

All-elem :
    (ys xs : List String)
    → ((u : String) → elem_text u xs ≡ true → elem_text u ys ≡ true)
    → All (λ u. elem_text u ys ≡ true) xs
All-elem ys [] h = tt
All-elem ys (x ∷ xs) h =
    (h x (elem_text_self x xs), All-elem ys xs (λ u k. h u (elem_weaken u x xs k)))

All-offers :
    (origin : String) (hrefs vs xs : List String)
    → All (λ u. elem_text u hrefs ≡ true) xs
    → All (MayOffer origin hrefs vs) (remaining vs (same_origin origin xs))
unfolding remaining same_origin
All-offers origin hrefs vs [] h = tt
All-offers origin hrefs vs (x ∷ xs) h = elim (Bool-cases (starts_with origin x)) [
  | inl s ↦ rw s (elim (Bool-cases (elem_text x vs)) [
    | inl e ↦ rw e (All-offers origin hrefs vs xs h.1)
    | inr e ↦ rw e ((h.0, s, e), All-offers origin hrefs vs xs h.1)
  ])
  | inr s ↦ rw s (All-offers origin hrefs vs xs h.1)
]

-- The links that a crawl offers.
abbrev pub offers : ℕ → String → List String → List String → List String
offers n origin hrefs vs =
    take n (dedupe [] (remaining vs (same_origin origin (distinct_texts [] hrefs))))

pub get_unvisited_links-offers :
    (n : ℕ) (origin : String) (hrefs vs : List String) (c : Crawl)
    → find "visited_urls" c.memory ≡ some (members vs)
    → get_unvisited_links n origin hrefs c ≡ (ok (offered (offers n origin hrefs vs)), c)
unfolding get_unvisited_links
get_unvisited_links-offers n origin hrefs vs c h =
    rw (unvisited-members c.memory vs (same_origin origin (distinct_texts [] hrefs)) h) refl

-- While the memory holds a set of visited URLs, the tool answers with at most `n` links, changes
-- nothing, offers no two links that differ in their query only, and each link is on the page,
-- begins with the origin and was not visited.
pub get_unvisited_links-bounded :
    (n : ℕ) (origin : String) (hrefs vs : List String) (c : Crawl)
    → find "visited_urls" c.memory ≡ some (members vs)
    → (ls : List String) × (get_unvisited_links n origin hrefs c ≡ (ok (offered ls), c))
      × (length ls ≤ n)
      × (no_repeats (bases ls) ≡ true)
      × All (MayOffer origin hrefs vs) ls
get_unvisited_links-bounded n origin hrefs vs c h =
    let page = distinct_texts [] hrefs in
    let rest = remaining vs (same_origin origin page) in
    let found =
      All-distinct (λ u. elem_text u hrefs ≡ true) [] hrefs (All-elem hrefs hrefs (λ u k. k)) in
    let P = MayOffer origin hrefs vs in
    (
      offers n origin hrefs vs,
      get_unvisited_links-offers n origin hrefs vs c h,
      length-take n (dedupe [] rest),
      no_repeats-take n (dedupe [] rest) (no_repeats-dedupe [] rest),
      All-take P n (dedupe [] rest) (All-dedupe P [] rest (All-offers origin hrefs vs page found)),
    )
