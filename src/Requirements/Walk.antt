-- ===== src/Requirements/Walk.antt =====
-- Following the cursors from page to page.
use kaats_v.Base.{
  ℕ, zero, suc, ◌+◌, ◌≤◌, ◌<◌, ◌≡◌, ◌≢◌, refl, sym, ◌∙◌, ap, subst, inl, inr, Bool, Option, none,
  some, List, [], ◌∷◌, ◌++◌, arith, ltb, leb, ◌==◌, if◌then◌else◌, Bool-cases, length, select,
  count, All,
}
use kaats_v.Schema.{Db, Requirement}
use kaats_v.Requirements.Paging.{
  Cursor, encoded, Filter, matches, insert_desc, sort_desc, ordered, drop, take, before,
  from_cursor, last_time, Page, list_for_system_paginated,
}

-- No two rows have the same time.
abbrev pub DistinctTimes : List Requirement → Type 0
DistinctTimes [] = Unit
DistinctTimes (x ∷ xs) = All (λ y. y.created_at ≢ x.created_at) xs × DistinctTimes xs

-- Later rows are older.
abbrev pub Descending : List Requirement → Type 0
Descending [] = Unit
Descending (x ∷ xs) = All (λ y. y.created_at < x.created_at) xs × Descending xs

All-insert_desc :
    (P : Requirement → Type 0) (q : Requirement) (xs : List Requirement)
    → P q
    → All P xs
    → All P (insert_desc q xs)
unfolding insert_desc
All-insert_desc P q [] h k = (h, tt)
All-insert_desc P q (x ∷ xs) h k = elim (Bool-cases (leb x.created_at q.created_at)) [
  | inl e ↦ rw e (h, k)
  | inr e ↦ rw e (k.0, All-insert_desc P q xs h k.1)
]

All-below :
    (t u : ℕ) (xs : List Requirement)
    → t < u
    → All (λ y. y.created_at < t) xs
    → All (λ y. y.created_at < u) xs
All-below t u [] h k = tt
All-below t u (x ∷ xs) h k = (omega (arith, k.0), All-below t u xs h k.1)

Descending-insert_desc :
    (q : Requirement) (xs : List Requirement)
    → All (λ y. y.created_at ≢ q.created_at) xs
    → Descending xs
    → Descending (insert_desc q xs)
unfolding insert_desc
Descending-insert_desc q [] h d = (tt, tt)
Descending-insert_desc q (x ∷ xs) h d = elim (Bool-cases (leb x.created_at q.created_at)) [
  | inl e ↦
      let l : x.created_at < q.created_at = ground (arith, h.0) in
      rw e ((l, All-below x.created_at q.created_at xs l d.0), d)
  | inr e ↦
      let l : q.created_at < x.created_at = ground arith in
      rw e (
        All-insert_desc (λ y. y.created_at < x.created_at) q xs l d.0,
        Descending-insert_desc q xs h.1 d.1,
      )
]

Descending-sort_desc : (xs : List Requirement) → DistinctTimes xs → Descending (sort_desc xs)
unfolding sort_desc
Descending-sort_desc [] h = tt
Descending-sort_desc (x ∷ xs) h =
    Descending-insert_desc x (sort_desc xs) (sorted_all xs h.0) (Descending-sort_desc xs h.1)
  where
    sorted_all :
        (ys : List Requirement)
        → All (λ y. y.created_at ≢ x.created_at) ys
        → All (λ y. y.created_at ≢ x.created_at) (sort_desc ys)
    sorted_all [] k = tt
    sorted_all (y ∷ ys) k =
        All-insert_desc (λ y'. y'.created_at ≢ x.created_at) y (sort_desc ys) k.0
          (sorted_all ys k.1)

-- Two cut-offs, the second below the first.
pub before-before : (c d : ℕ) (xs : List Requirement) → d ≤ c → before d (before c xs) ≡ before d xs
unfolding before select
before-before c d [] h = refl
before-before c d (x ∷ xs) h = ground (arith, before-before c d xs)

before-All : (c : ℕ) (xs : List Requirement) → All (λ y. y.created_at < c) xs → before c xs ≡ xs
unfolding before select
before-All c [] h = refl
before-All c (x ∷ xs) h = ground (arith, before-All c xs, h.0, h.1)

last_time-le :
    (n c : ℕ) (y : Requirement) (ys : List Requirement)
    → Descending (y ∷ ys)
    → last_time (y ∷ take n ys) ≡ some c
    → c ≤ y.created_at
unfolding last_time
last_time-le zero c y ys d h = ground arith
last_time-le (suc n) c y [] d h = ground arith
last_time-le (suc n) c y (z ∷ zs) d h =
    let below = d.0.0 in omega (arith, last_time-le n c z zs d.1 h, below)

-- The rows below the last one of a page are the rows behind the page.
before-last :
    (n c : ℕ) (xs : List Requirement)
    → Descending xs
    → last_time (take n xs) ≡ some c
    → before c xs ≡ drop n xs
unfolding before select last_time
before-last zero c xs d h = absurd (cc h)
before-last (suc n) c [] d h = absurd (cc h)
before-last (suc zero) c (x ∷ xs) d h =
    let e : x.created_at ≡ c = ground (arith, h) in
    let all = d.0 in ground (arith, e, before-All x.created_at xs all)
before-last (suc (suc n)) c (x ∷ []) d h = ground (arith, h)
before-last (suc (suc n)) c (x ∷ y ∷ xs) d h =
    let below = d.0.0 in
    ground (arith, below, last_time-le n c y xs d.1 h, before-last (suc n) c (y ∷ xs) d.1 h)

Descending-drop : (n : ℕ) (xs : List Requirement) → Descending xs → Descending (drop n xs)
Descending-drop zero xs d = d
Descending-drop (suc n) [] d = tt
Descending-drop (suc n) (x ∷ xs) d = Descending-drop n xs d.1

take-drop : (n : ℕ) (xs : List Requirement) → take n xs ++ drop n xs ≡ xs
take-drop zero xs = refl
take-drop (suc n) [] = refl
take-drop (suc n) (x ∷ xs) = ap (λ l. x ∷ l) (take-drop n xs)

pub short_page : (n : ℕ) (xs : List Requirement) → length (take n xs) ≢ n → take n xs ≡ xs
short_page zero xs h = absurd (h refl)
short_page (suc n) [] h = refl
short_page (suc n) (x ∷ xs) h = ap (λ l. x ∷ l) (short_page n xs (λ e. h (omega (arith, e))))

pub full_page :
    (n : ℕ) (xs : List Requirement)
    → length (take (suc n) xs) ≡ suc n
    → (c : ℕ) × (last_time (take (suc n) xs) ≡ some c)
unfolding last_time
full_page n [] h = absurd (omega arith)
full_page zero (x ∷ xs) h = (x.created_at, refl)
full_page (suc n) (x ∷ []) h = absurd (omega arith)
full_page (suc n) (x ∷ y ∷ xs) h = full_page n (y ∷ xs) (omega arith)

length-drop_lt :
    (n : ℕ) (xs : List Requirement)
    → length (take (suc n) xs) ≡ suc n
    → length (drop (suc n) xs) < length xs
length-drop_lt n [] h = absurd (omega arith)
length-drop_lt n (x ∷ xs) h = omega (arith, drop_le n xs)
  where
    drop_le : (k : ℕ) (ys : List Requirement) → length (drop k ys) ≤ length ys
    drop_le zero ys = omega arith
    drop_le (suc k) [] = omega arith
    drop_le (suc k) (y ∷ ys) = omega (arith, drop_le k ys)

pub All-before : (c : ℕ) (xs : List Requirement) → All (λ y. y.created_at < c) (before c xs)
unfolding before select
All-before c [] = tt
All-before c (x ∷ xs) = elim (Bool-cases (ltb x.created_at c)) [
  | inl e ↦ rw e (ground arith, All-before c xs)
  | inr e ↦ rw e (All-before c xs)
]

pub last_time-lt :
    (n c d : ℕ) (xs : List Requirement)
    → All (λ y. y.created_at < c) xs
    → last_time (take n xs) ≡ some d
    → d < c
unfolding last_time
last_time-lt zero c d xs h e = absurd (cc e)
last_time-lt (suc n) c d [] h e = absurd (cc e)
last_time-lt (suc zero) c d (x ∷ xs) h e = let below = h.0 in ground (arith, below, e)
last_time-lt (suc (suc n)) c d (x ∷ []) h e = let below = h.0 in ground (arith, below, e)
last_time-lt (suc (suc n)) c d (x ∷ y ∷ xs) h e = last_time-lt (suc n) c d (y ∷ xs) h.1 e

abbrev pub prepend : List Requirement → Option (List Requirement) → Option (List Requirement)
prepend xs none = none
prepend xs (some ys) = some (xs ++ ys)

abbrev pub follow :
    List Requirement
    → Option Cursor
    → (Option Cursor → Option (List Requirement))
    → Option (List Requirement)
follow items none rest = some items
follow items (some c) rest = prepend items (rest (some c))

module _ (system_id : ℕ) (f : Filter) (limit : ℕ) (db : Db) where
  abbrev pub page_at : Option Cursor → Page
  page_at cursor = list_for_system_paginated system_id f limit 0 cursor db

  -- A client that asks for page after page with the cursor of the page before, until a page has
  -- none; `none` means that the number of requests did not suffice.
  unfoldable pub walk : ℕ → Option Cursor → Option (List Requirement)
  walk zero cursor = none
  walk (suc fuel) cursor = follow (page_at cursor).items (page_at cursor).next_cursor (walk fuel)

count-insert_desc :
    (p : Requirement → Bool) (q : Requirement) (xs : List Requirement)
    → count p (insert_desc q xs) ≡ (if p q then 1 else 0) + count p xs
unfolding count insert_desc
count-insert_desc p q [] = ground arith
count-insert_desc p q (x ∷ xs) = ground (arith, count-insert_desc p q xs)

count-sort_desc :
    (p : Requirement → Bool) (xs : List Requirement) → count p (sort_desc xs) ≡ count p xs
unfolding count sort_desc
count-sort_desc p [] = refl
count-sort_desc p (x ∷ xs) =
    ground (arith, count-insert_desc p x (sort_desc xs), count-sort_desc p xs)

module _ (system_id : ℕ) (f : Filter) (n : ℕ) (db : Db) where
  abbrev all_rows : List Requirement
  all_rows = ordered system_id f db

  -- The walk from a cursor behind which the rows `rest` stand.
  walk_rest :
      (fuel : ℕ) (cursor : Option Cursor) (rest : List Requirement)
      → from_cursor cursor 0 (ordered system_id f db) ≡ rest
      → ((d : ℕ)
          → last_time (take (suc n) rest) ≡ some d
          → before d (ordered system_id f db) ≡ before d rest)
      → Descending rest
      → length rest < fuel
      → walk system_id f (suc n) db fuel cursor ≡ some rest
  unfolding walk list_for_system_paginated
  walk_rest zero cursor rest e k d l = absurd (omega arith)
  walk_rest (suc fuel) cursor rest e k d l =
      elim (Bool-cases (length (take (suc n) rest) == suc n)) [
        | inl full ↦
            (let size : length (take (suc n) rest) ≡ suc n = ground arith in
              let (c, last) = full_page n rest size in
              let behind = before-last (suc n) c rest d last in
              let here : before c (ordered system_id f db) ≡ drop (suc n) rest =
                k c last ∙ behind in
              let smaller = length-drop_lt n rest size in
              let next =
                walk_rest fuel (some (encoded c)) (drop (suc n) rest) here
                  (λ c' last'.
                    let all =
                      subst (λ xs. All (λ y. y.created_at < c) xs) here
                        (All-before c (ordered system_id f db)) in
                    let less = last_time-lt (suc n) c c' (drop (suc n) rest) all last' in
                    sym (before-before c c' (ordered system_id f db) (omega (arith, less)))
                    ∙ ap (before c') here)
                  (Descending-drop (suc n) rest d) (omega (arith, smaller)) in
              rw (e, full, last, next) (ap (λ x. some x) (take-drop (suc n) rest)))
        | inr short ↦ rw (e, short) (ap (λ x. some x) (short_page (suc n) rest (ground arith)))
      ]

  -- Requirements of a system that match the filter and of which no two were created at the same
  -- time: with pages of at least one row, a client that follows the cursors gets each of them
  -- once, in order, and stops within as many requests as there are rows, and one.
  pub walk-ordered :
      DistinctTimes (select (matches system_id f) db.requirements)
      → let rows = ordered system_id f db in
        (walk system_id f (suc n) db (length rows + 1) none ≡ some rows)
        × ((p : Requirement → Bool)
            → count p rows ≡ count p (select (matches system_id f) db.requirements))
  unfolding ordered
  walk-ordered h =
      let matching = select (matches system_id f) db.requirements in
      (
        walk_rest (length (ordered system_id f db) + 1) none (ordered system_id f db) refl
            (λ d e. refl) (Descending-sort_desc matching h) (omega arith),
        λ p. count-sort_desc p matching,
      )
