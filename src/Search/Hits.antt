-- ===== src/Search/Hits.antt =====
-- The order of the hits, and what a deletion changes.
use kaats_v.Base.{
  ℕ, zero, suc, ◌≤◌, ◌<◌, ◌≡◌, refl, ap, ◌⊎◌, Bool, true, false, List, [], ◌∷◌, ◌++◌, count, String,
  arith, ltb, leb, leb→le, Bool-cases, inl, inr, length, All,
}
use kaats_v.Schema.{Db, System}
use kaats_v.Search.{TextTests, Hit, take, score, insert_hit, sort_hits, all_hits, search}

module _ (text : TextTests) (term : String) where
  -- Lower scores stand first.
  abbrev IsSorted : List Hit → Type 0
  IsSorted [] = Unit
  IsSorted (h ∷ hs) = All (λ x. score text term h ≤ score text term x) hs × IsSorted hs

  All-from :
      (m n : ℕ) (hs : List Hit)
      → m ≤ n
      → All (λ x. n ≤ score text term x) hs
      → All (λ x. m ≤ score text term x) hs
  All-from m n [] h a = tt
  All-from m n (x ∷ hs) h a = let b = a.0 in (omega (arith, b), All-from m n hs h a.1)

  All-insert :
      (P : Hit → Type 0) (h : Hit) (hs : List Hit)
      → P h
      → All P hs
      → All P (insert_hit text term h hs)
  unfolding insert_hit
  All-insert P h [] a b = (a, tt)
  All-insert P h (x ∷ hs) a b = elim (Bool-cases (leb (score text term h) (score text term x))) [
    | inl e ↦ rw e (a, b)
    | inr e ↦ rw e (b.0, All-insert P h hs a b.1)
  ]

  insert_hit-IsSorted :
      (h : Hit) (hs : List Hit) → IsSorted hs → IsSorted (insert_hit text term h hs)
  unfolding insert_hit
  insert_hit-IsSorted h [] r = (tt, tt)
  insert_hit-IsSorted h (x ∷ hs) r =
      elim (Bool-cases (leb (score text term h) (score text term x))) [
        | inl e ↦
            let l : score text term h ≤ score text term x =
              leb→le (score text term h) (score text term x) e in
            rw e ((l, All-from (score text term h) (score text term x) hs l r.0), r)
        | inr e ↦
            let l : score text term x ≤ score text term h =
              below (score text term h) (score text term x) e in
            rw e (
              All-insert (λ y. score text term x ≤ score text term y) h hs l r.0,
              insert_hit-IsSorted h hs r.1,
            )
      ]
    where
      below : (a b : ℕ) → leb a b ≡ false → b ≤ a
      below a b e = ground arith

  sort_hits-IsSorted : (hs : List Hit) → IsSorted (sort_hits text term hs)
  unfolding sort_hits
  sort_hits-IsSorted [] = tt
  sort_hits-IsSorted (h ∷ hs) =
      insert_hit-IsSorted h (sort_hits text term hs) (sort_hits-IsSorted hs)

  -- A hit may stand before another: its label is the term, or it begins with the term and the other
  -- is not the term, or the other neither is the term nor begins with it.
  pub data MayPrecede (h x : Hit) : Type 0 where
    exact : text.equal (text.lower h.label) term ≡ true → MayPrecede h x
    begins :
        text.starts term (text.lower h.label) ≡ true
        → text.equal (text.lower x.label) term ≡ false
        → MayPrecede h x
    other :
        text.equal (text.lower x.label) term ≡ false
        → text.starts term (text.lower x.label) ≡ false
        → MayPrecede h x

  -- Each hit may stand before all that follow.
  abbrev pub IsRanked : List Hit → Type 0
  IsRanked [] = Unit
  IsRanked (h ∷ hs) = All (MayPrecede h) hs × IsRanked hs

  score-MayPrecede : (h x : Hit) → score text term h ≤ score text term x → MayPrecede h x
  score-MayPrecede h x l = elim (Bool-cases (text.equal (text.lower h.label) term)) [
    | inl e ↦ exact e
    | inr e ↦ elim (Bool-cases (text.equal (text.lower x.label) term)) [
      | inl f ↦ absurd (ground (arith, l))
      | inr f ↦ elim (Bool-cases (text.starts term (text.lower h.label))) [
        | inl g ↦ begins g f
        | inr g ↦ other f (ground (arith, l))
      ]
    ]
  ]

  All-MayPrecede :
      (h : Hit) (hs : List Hit)
      → All (λ x. score text term h ≤ score text term x) hs
      → All (MayPrecede h) hs
  All-MayPrecede h [] a = tt
  All-MayPrecede h (x ∷ hs) a = (score-MayPrecede h x a.0, All-MayPrecede h hs a.1)

  Sorted-IsRanked : (hs : List Hit) → IsSorted hs → IsRanked hs
  Sorted-IsRanked [] r = tt
  Sorted-IsRanked (h ∷ hs) r = (All-MayPrecede h hs r.0, Sorted-IsRanked hs r.1)

  count-insert_hit :
      (p : Hit → Bool) (h : Hit) (hs : List Hit)
      → count p (insert_hit text term h hs) ≡ count p (h ∷ hs)
  unfolding insert_hit count
  count-insert_hit p h [] = refl
  count-insert_hit p h (x ∷ hs) = ground (arith, count-insert_hit p h hs)

  count-sort_hits : (p : Hit → Bool) (hs : List Hit) → count p (sort_hits text term hs) ≡ count p hs
  unfolding sort_hits count
  count-sort_hits p [] = refl
  count-sort_hits p (h ∷ hs) =
      ground (arith, count-insert_hit p h (sort_hits text term hs), count-sort_hits p hs)

-- What `take` leaves.
abbrev left_out : ℕ → List Hit → List Hit
left_out zero hs = hs
left_out (suc n) [] = []
left_out (suc n) (h ∷ hs) = left_out n hs

take-left_out : (n : ℕ) (hs : List Hit) → take n hs ++ left_out n hs ≡ hs
take-left_out zero hs = refl
take-left_out (suc n) [] = refl
take-left_out (suc n) (h ∷ hs) = ap (λ xs. h ∷ xs) (take-left_out n hs)

length-take :
    (n : ℕ) (hs : List Hit)
    → (length (take n hs) ≡ n) ⊎ ((length (take n hs) < n) × (left_out n hs ≡ []))
length-take zero hs = inl refl
length-take (suc n) [] = inr (omega arith, refl)
length-take (suc n) (h ∷ hs) = elim (length-take n hs) [
  | inl e ↦ inl (ap suc e)
  | inr (l, e) ↦ inr (omega arith, e)
]

-- A search for a text of at least two characters shows the first of the ranked hits. The hits shown
-- and some more, the rest, are together those that the five queries find, each as often as there;
-- no hit stands before one that has the term as its label unless it has it too, and none before one
-- that begins with the term unless it is the term or begins with it, so that the shown ones are the
-- best; and as many are shown as asked for, or fewer and then there is no rest.
pub search-IsRanked :
    (text : TextTests) (description : System → String) (q : String) (company limit : ℕ) (db : Db)
    → 2 ≤ text.len (text.strip q)
    → let hits = search text description q company limit db in
      let term = text.lower (text.strip q) in
      (rest : List Hit) × IsRanked text term (hits ++ rest)
      × ((p : Hit → Bool)
          → count p (hits ++ rest) ≡ count p (all_hits text description term company limit db))
      × ((length hits ≡ limit) ⊎ ((length hits < limit) × (rest ≡ [])))
unfolding search
search-IsRanked text description q company limit db l =
    let term = text.lower (text.strip q) in
    let found = all_hits text description term company limit db in
    let sorted = sort_hits text term found in
    let e : ltb (text.len (text.strip q)) 2 ≡ false = ground (arith, l) in
    let all = take-left_out limit sorted in
    rw e (
      left_out limit sorted,
      rw all (Sorted-IsRanked text term sorted (sort_hits-IsSorted text term found)),
      λ p. rw all (count-sort_hits text term p found),
      length-take limit sorted,
    )
