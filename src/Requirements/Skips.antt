-- ===== src/Requirements/Skips.antt =====
-- Which rows a client that follows the cursors never gets.
use kaats_v.Base.{
  ℕ, zero, suc, ◌≤◌, ◌<◌, ◌≡◌, refl, sym, subst, ◌∙◌, ap, inl, inr, Option, some, none, List, [],
  ◌∷◌, ◌++◌, arith, true, ltb, ◌==◌, Bool-cases, length, select, All,
}
use kaats_v.Schema.{Db, Requirement}
use kaats_v.Requirements.Paging.{
  Cursor, encoded, garbled, Filter, ordered, take, before, from_cursor, last_time,
  list_for_system_paginated,
}
use kaats_v.Requirements.Walk.{walk, before-before, All-before, last_time-lt, full_page, short_page}

length-before : (c : ℕ) (xs : List Requirement) → length (before c xs) ≤ length xs
unfolding before select
length-before c [] = omega arith
length-before c (x ∷ xs) = ground (arith, length-before c xs)

-- The cut at the last time of a page leaves the last row of the page out.
length-before_lt :
    (n c : ℕ) (xs : List Requirement)
    → last_time (take n xs) ≡ some c
    → length (before c xs) < length xs
unfolding before select last_time
length-before_lt zero c xs e = absurd (cc e)
length-before_lt (suc n) c [] e = absurd (cc e)
length-before_lt (suc zero) c (x ∷ xs) e = ground (arith, e, length-before c xs)
length-before_lt (suc (suc n)) c (x ∷ []) e = ground (arith, e)
length-before_lt (suc (suc n)) c (x ∷ y ∷ xs) e =
    ground (arith, length-before_lt (suc n) c (y ∷ xs) e)

module _ (P : Requirement → Type 0) where
  kept_before : (c : ℕ) (xs : List Requirement) → All P xs → All P (before c xs)
  unfolding before select
  kept_before c [] a = tt
  kept_before c (x ∷ xs) a = elim (Bool-cases (ltb x.created_at c)) [
    | inl e ↦ rw e (a.0, kept_before c xs a.1)
    | inr e ↦ rw e (kept_before c xs a.1)
  ]

  All-take : (n : ℕ) (xs : List Requirement) → All P xs → All P (take n xs)
  All-take zero xs a = tt
  All-take (suc n) [] a = tt
  All-take (suc n) (x ∷ xs) a = (a.0, All-take n xs a.1)

  All-append : (xs ys : List Requirement) → All P xs → All P ys → All P (xs ++ ys)
  All-append [] ys a b = b
  All-append (x ∷ xs) ys a b = (a.0, All-append xs ys a.1 b)

-- A cut below the last time of what stands behind a cursor is a cut of all rows.
behind :
    (cursor : Option Cursor) (n d : ℕ) (xs : List Requirement)
    → last_time (take n (from_cursor cursor 0 xs)) ≡ some d
    → before d xs ≡ before d (from_cursor cursor 0 xs)
behind none n d xs h = refl
behind (some (garbled s)) n d xs h = refl
behind (some (encoded c)) n d xs h =
    let less = last_time-lt n c d (before c xs) (All-before c xs) h in
    sym (before-before c d xs (omega (arith, less)))

first_rows :
    (pre : List Requirement) (x : Requirement) (xs : List Requirement)
    → take (suc (length pre)) (pre ++ x ∷ xs) ≡ pre ++ x ∷ []
first_rows [] x xs = refl
first_rows (p ∷ pre) x xs = ap (λ l. p ∷ l) (first_rows pre x xs)

length-first_rows :
    (pre : List Requirement) (x : Requirement) → length (pre ++ x ∷ []) ≡ suc (length pre)
length-first_rows [] x = refl
length-first_rows (p ∷ pre) x = ap suc (length-first_rows pre x)

last_time-first_rows :
    (pre : List Requirement) (x : Requirement) → last_time (pre ++ x ∷ []) ≡ some x.created_at
unfolding last_time
last_time-first_rows [] x = refl
last_time-first_rows (p ∷ []) x = refl
last_time-first_rows (p ∷ q ∷ pre) x = last_time-first_rows (q ∷ pre) x

-- A full page, and what the client gets after it.
walk_full :
    (system_id : ℕ) (f : Filter) (n fuel c : ℕ) (db : Db) (cursor : Option Cursor)
    (rest rows : List Requirement)
    → from_cursor cursor 0 (ordered system_id f db) ≡ rest
    → (length (take n rest) == n) ≡ true
    → last_time (take n rest) ≡ some c
    → walk system_id f n db fuel (some (encoded c)) ≡ some rows
    → walk system_id f n db (suc fuel) cursor ≡ some (take n rest ++ rows)
unfolding walk list_for_system_paginated
walk_full system_id f n fuel c db cursor rest rows e full last next = rw (e, full, last, next) refl

module _ (system_id : ℕ) (f : Filter) (n : ℕ) (db : Db) (P : Requirement → Type 0) where
  -- A walk from any cursor ends, with rows from behind the cursor.
  walk-All :
      (fuel : ℕ) (cursor : Option Cursor) (rest : List Requirement)
      → from_cursor cursor 0 (ordered system_id f db) ≡ rest
      → All P rest
      → length rest < fuel
      → (rows : List Requirement) × (walk system_id f (suc n) db fuel cursor ≡ some rows)
        × All P rows
  unfolding walk list_for_system_paginated
  walk-All zero cursor rest e a l = absurd (omega arith)
  walk-All (suc fuel) cursor rest e a l = elim (Bool-cases (length (take (suc n) rest) == suc n)) [
    | inl full ↦
        let size : length (take (suc n) rest) ≡ suc n = ground arith in
        let (c, last) = full_page n rest size in
        let last' : last_time (take (suc n) (from_cursor cursor 0 (ordered system_id f db)))
            ≡ some c =
          rw e last in
        let here = behind cursor (suc n) c (ordered system_id f db) last' ∙ ap (before c) e in
        let smaller = length-before_lt (suc n) c rest last in
        let (rows, next, all) =
          walk-All fuel (some (encoded c)) (before c rest) here (kept_before P c rest a)
            (omega (arith, smaller)) in
        (
          take (suc n) rest ++ rows,
          walk_full system_id f (suc n) fuel c db cursor rest rows e full last next,
          All-append P (take (suc n) rest) rows (All-take P (suc n) rest a) all,
        )
    | inr short ↦
        (rest, rw (e, short) (ap (λ x. some x) (short_page (suc n) rest (ground arith))), a)
  ]

-- A page, asked for with any cursor, ends with x, and the next row y has the same time. A client
-- that goes on from this page gets, within as many requests as there are rows behind the cursor,
-- and one, the rows of the page and then only rows that are older than x and y: so none of these is y.
pub same_time-skipped :
    (system_id : ℕ) (f : Filter) (cursor : Option Cursor) (db : Db) (pre : List Requirement)
    (x y : Requirement) (rest : List Requirement)
    → from_cursor cursor 0 (ordered system_id f db) ≡ pre ++ x ∷ y ∷ rest
    → y.created_at ≡ x.created_at
    → (later : List Requirement) × (walk system_id f
          (suc (length pre))
          db
          (suc (length (pre ++ x ∷ y ∷ rest)))
          cursor
        ≡ some ((pre ++ x ∷ []) ++ later))
      × All (λ z. z.created_at < y.created_at) later
same_time-skipped system_id f cursor db pre x y rest e t =
    let rows = pre ++ x ∷ y ∷ rest in
    let c = x.created_at in
    let page = first_rows pre x (y ∷ rest) in
    let size = length-first_rows pre x in
    let last = last_time-first_rows pre x in
    let last' : last_time (take (suc (length pre)) (from_cursor cursor 0 (ordered system_id f db)))
        ≡ some c =
      rw (e, page) last in
    let last_row : last_time (take (suc (length pre)) rows) ≡ some c = rw page last in
    let here =
      behind cursor (suc (length pre)) c (ordered system_id f db) last' ∙ ap (before c) e in
    let smaller = length-before_lt (suc (length pre)) c rows last_row in
    let (later, next, all) =
      walk-All system_id f (length pre) db (λ z. z.created_at < c) (length rows) (some (encoded c))
        (before c rows) here (All-before c rows) smaller in
    let full : (length (take (suc (length pre)) rows) == suc (length pre)) ≡ true =
      ground (arith, size, ap length page) in
    let all_rows =
      walk_full system_id f (suc (length pre)) (length rows) c db cursor rows later e full last_row
        next in
    (
      later,
      all_rows ∙ ap (λ l. some (l ++ later)) page,
      subst (λ d. All (λ z. z.created_at < d) later) (sym t) all,
    )
