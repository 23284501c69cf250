-- ===== src/Base/Rows.antt =====
-- Tables as lists of rows, queries as Boolean filters over them, and a change of the row with a
-- given primary key.
use Prim.Native.Nat.{ℕ, suc, ◌+◌, ◌≤◌}
use mathlib.Core.Path.{◌≡◌, refl, sym, ap, subst, ◌∙◌}
use mathlib.Core.Logic.{◌↔◌, inl, inr}
use mathlib.Core.Bool.{Bool, true, false, ◌||◌}
use mathlib.Core.Option.{Option, none, some}
use mathlib.Core.List.{List, [], ◌∷◌, ◌++◌, Memᴰ}
use native.Mathlib.Omega.{arith}
use kaats_v.Base.Tests.{◌==◌, if◌then◌else◌, Bool-cases}

module _ {A : Type 0} where
  abbrev pub length : List A → ℕ
  length [] = 0
  length (x ∷ xs) = suc (length xs)

  -- `select(T).where(p)`
  unfoldable pub select : (A → Bool) → List A → List A
  select p [] = []
  select p (x ∷ xs) = if p x then x ∷ select p xs else select p xs

  -- `select(func.count()).where(p)`
  unfoldable pub count : (A → Bool) → List A → ℕ
  count p [] = 0
  count p (x ∷ xs) = if p x then suc (count p xs) else count p xs

  -- `db.scalar(select(T).where(p))`: the first row that fits.
  unfoldable pub first : (A → Bool) → List A → Option A
  first p [] = none
  first p (x ∷ xs) = if p x then some x else first p xs

  unfoldable pub any : (A → Bool) → List A → Bool
  any p [] = false
  any p (x ∷ xs) = p x || any p xs

  abbrev pub All : (A → Type 0) → List A → Type 0
  All P [] = Unit
  All P (x ∷ xs) = P x × All P xs

  pub count-append : (p : A → Bool) (xs ys : List A) → count p (xs ++ ys) ≡ count p xs + count p ys
  unfolding count
  count-append p [] ys = omega arith
  count-append p (x ∷ xs) ys = ground (arith, count-append p xs ys)

  pub count-le-length : (p : A → Bool) (xs : List A) → count p xs ≤ length xs
  unfolding count
  count-le-length p [] = omega arith
  count-le-length p (x ∷ xs) = ground (arith, count-le-length p xs)

  pub count-zero : (p : A → Bool) (xs : List A) → ((a : A) → p a ≡ false) → count p xs ≡ 0
  unfolding count
  count-zero p [] h = refl
  count-zero p (x ∷ xs) h = ground (arith, h x, count-zero p xs h)

  pub length-select : (p : A → Bool) (xs : List A) → length (select p xs) ≡ count p xs
  unfolding select count
  length-select p [] = refl
  length-select p (x ∷ xs) = ground (arith, length-select p xs)

  pub any_intro : (p : A → Bool) {a : A} (xs : List A) → Memᴰ a xs → p a ≡ true → any p xs ≡ true
  unfolding any
  any_intro p [] m h = elim m [ ]
  any_intro p (x ∷ xs) (Memᴰ.head e) h = rw (← e, h)
  any_intro p (x ∷ xs) (Memᴰ.tail m) h = ground (arith, any_intro p xs m h)

  pub any_elim : (p : A → Bool) (xs : List A) → any p xs ≡ true → (a : A) × Memᴰ a xs × (p a ≡ true)
  unfolding any
  any_elim p [] h = absurd (cc)
  any_elim p (x ∷ xs) h = elim (Bool-cases (p x)) [
    | inl e ↦ (x, Memᴰ.head refl, e)
    | inr e ↦
        let (a, m, q) = any_elim p xs (subst (λ b. (b || any p xs) ≡ true) e h) in
        (a, Memᴰ.tail m, q)
  ]

  pub any_iff :
      (p : A → Bool) (xs : List A) → (any p xs ≡ true) ↔ ((a : A) × Memᴰ a xs × (p a ≡ true))
  any_iff p xs = (any_elim p xs, λ t. any_intro p xs t.1 t.2)

  pub first-some :
      (p : A → Bool) {a : A} (xs : List A) → first p xs ≡ some a → Memᴰ a xs × (p a ≡ true)
  unfolding first
  first-some p [] h = absurd (cc)
  first-some p (x ∷ xs) h = elim (Bool-cases (p x)) [
    | inl e ↦ (Memᴰ.head (ground arith), ground arith)
    | inr e ↦ let (m, q) = first-some p xs (ground arith) in (Memᴰ.tail m, q)
  ]

-- `set` membership of ids
abbrev pub elem : ℕ → List ℕ → Bool
elem a [] = false
elem a (x ∷ xs) = a == x || elem a xs

module _ {A : Type 0} (key : A → ℕ) where
  -- `db.get(T, id)`
  unfoldable pub get : ℕ → List A → Option A
  get i [] = none
  get i (x ∷ xs) = if key x == i then some x else get i xs

  -- An UPDATE of the row with primary key `i`.
  unfoldable pub update : ℕ → (A → A) → List A → List A
  update i f [] = []
  update i f (x ∷ xs) = if key x == i then f x ∷ xs else x ∷ update i f xs

  -- The row `a` written back over the stored row with its key.
  unfoldable pub replace : A → List A → List A
  replace a = update (key a) (λ _. a)

  -- A DELETE of the row with primary key `i`.
  unfoldable pub delete : ℕ → List A → List A
  delete i [] = []
  delete i (x ∷ xs) = if key x == i then xs else x ∷ delete i xs

  pub get-key : (i : ℕ) (a : A) (xs : List A) → get i xs ≡ some a → key a ≡ i
  unfolding get
  get-key i a [] h = absurd (cc)
  get-key i a (x ∷ xs) h = ground (arith, get-key i a xs)

  -- A row that a key finds is found by its own key.
  pub get_own : (i : ℕ) (a : A) (xs : List A) → get i xs ≡ some a → get (key a) xs ≡ some a
  get_own i a xs h = subst (λ j. get j xs ≡ some a) (sym (get-key i a xs h)) h

  pub get-Mem : (i : ℕ) {a : A} (xs : List A) → get i xs ≡ some a → Memᴰ a xs
  unfolding get
  get-Mem i [] h = absurd (cc)
  get-Mem i (x ∷ xs) h = elim (Bool-cases (key x == i)) [
    | inl e ↦ Memᴰ.head (ground arith)
    | inr e ↦ Memᴰ.tail (get-Mem i xs (ground arith))
  ]

  pub get-update :
      (i j : ℕ) (f : A → A) (a : A) (xs : List A)
      → get i xs ≡ some a
      → key (f a) ≡ key a
      → get j (update i f xs) ≡ (if i == j then some (f a) else get j xs)
  unfolding get update
  get-update i j f a [] h k = absurd (cc)
  get-update i j f a (x ∷ xs) h k = ground (arith, get-update i j f a xs)

  pub get-replace :
      (j : ℕ) (b a : A) (xs : List A)
      → get (key b) xs ≡ some a
      → get j (replace b xs) ≡ (if key b == j then some b else get j xs)
  unfolding replace
  get-replace j b a xs h = get-update (key b) j (λ _. b) a xs h (sym (get-key (key b) a xs h))

  pub count-update :
      (p : A → Bool) (i : ℕ) (f : A → A) (a : A) (xs : List A)
      → get i xs ≡ some a
      → count p (update i f xs) + (if p a then 1 else 0) ≡ count p xs + (if p (f a) then 1 else 0)
  unfolding get update count
  count-update p i f a [] h = absurd (cc)
  count-update p i f a (x ∷ xs) h = ground (arith, count-update p i f a xs)

module _ {A : Type 0} where
  kept_head :
      (p : A → Bool) (a x : A) (ys xs : List A)
      → (Memᴰ a ys → Memᴰ a xs × (p a ≡ true))
      → p x ≡ true
      → Memᴰ a (x ∷ ys)
      → Memᴰ a (x ∷ xs) × (p a ≡ true)
  kept_head p a x ys xs rest e (Memᴰ.head q) = (Memᴰ.head q, ap p q ∙ e)
  kept_head p a x ys xs rest e (Memᴰ.tail n) = let (n', h) = rest n in (Memᴰ.tail n', h)

  pub select-Mem :
      (p : A → Bool) (a : A) (xs : List A) → Memᴰ a (select p xs) → Memᴰ a xs × (p a ≡ true)
  unfolding select
  select-Mem p a [] m = elim m [ ]
  select-Mem p a (x ∷ xs) m = elim (Bool-cases (p x)) [
    | inl e ↦
        kept_head p a x (select p xs) xs (select-Mem p a xs) e
          (subst (λ b. Memᴰ a (if b then x ∷ select p xs else select p xs)) e m)
    | inr e ↦
        let (n, h) =
          select-Mem p a xs
            (subst (λ b. Memᴰ a (if b then x ∷ select p xs else select p xs)) e m) in
        (Memᴰ.tail n, h)
  ]

  pub Mem-select :
      (p : A → Bool) (a : A) (xs : List A) → Memᴰ a xs → p a ≡ true → Memᴰ a (select p xs)
  unfolding select
  Mem-select p a [] m h = elim m [ ]
  Mem-select p a (x ∷ xs) (Memᴰ.head q) h = rw (← q, h) (Memᴰ.head refl)
  Mem-select p a (x ∷ xs) (Memᴰ.tail n) h = elim (Bool-cases (p x)) [
    | inl e ↦ rw e (Memᴰ.tail (Mem-select p a xs n h))
    | inr e ↦ rw e (Mem-select p a xs n h)
  ]

module _ {A : Type 0} (key : A → ℕ) (P : A → Type 0) where
  pub All-get : (i : ℕ) (a : A) (xs : List A) → All P xs → get key i xs ≡ some a → P a
  unfolding get
  All-get i a [] h e = absurd (cc)
  All-get i a (x ∷ xs) h e = elim (Bool-cases (key x == i)) [
    | inl c ↦ let q : x ≡ a = ground arith in subst P q h.0
    | inr c ↦ All-get i a xs h.1 (ground arith)
  ]

  pub All-update :
      (i : ℕ) (f : A → A) (xs : List A)
      → All P xs
      → ((a : A) → get key i xs ≡ some a → P (f a))
      → All P (update key i f xs)
  unfolding get update
  All-update i f [] h k = tt
  All-update i f (x ∷ xs) h k = elim (Bool-cases (key x == i)) [
    | inl c ↦ rw c (k x (rw c), h.1)
    | inr c ↦ rw c (h.0, All-update i f xs h.1 (λ a e. k a (rw c e)))
  ]

  pub All-replace : (a : A) (xs : List A) → All P xs → P a → All P (replace key a xs)
  unfolding replace
  All-replace a xs h k = All-update (key a) (λ _. a) xs h (λ _ _. k)

  pub All-delete : (i : ℕ) (xs : List A) → All P xs → All P (delete key i xs)
  unfolding delete
  All-delete i [] h = tt
  All-delete i (x ∷ xs) h = elim (Bool-cases (key x == i)) [
    | inl c ↦ rw c h.1
    | inr c ↦ rw c (h.0, All-delete i xs h.1)
  ]
