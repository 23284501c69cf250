-- ===== src/Base/Groups.antt =====
-- `SELECT key, count(*) GROUP BY key` and `SELECT key, sum(n) GROUP BY key` as dictionaries, and
-- sums over them.
use Prim.Native.Nat.{ℕ, ◌+◌, ◌≤◌}
use mathlib.Core.Path.{◌≡◌, refl}
use mathlib.Core.Logic.{◌↔◌}
use mathlib.Core.Bool.{Bool, true, false, ◌||◌}
use mathlib.Core.List.{List, [], ◌∷◌}
use native.Mathlib.Omega.{arith}
use kaats_v.Base.Tests.{if◌then◌else◌}
use kaats_v.Base.Rows.{length, count}

-- Keys with an equality test.
pub record Key (K : Type 0) : Type 0 where
  pub same : K → K → Bool
  pub same_iff : (a b : K) → (same a b ≡ true) ↔ (a ≡ b)

module _ {K : Type 0} (e : Key K) where
  -- One more row with the key, of amount `a`.
  unfoldable pub bump : K → ℕ → List (K × ℕ) → List (K × ℕ)
  bump k a [] = (k, a) ∷ []
  bump k a ((j, n) ∷ m) = if e.same j k then (j, n + a) ∷ m else (j, n) ∷ bump k a m

  unfoldable pub group_counts : List K → List (K × ℕ)
  group_counts [] = []
  group_counts (k ∷ ks) = bump k 1 (group_counts ks)

  unfoldable pub group_sums : List (K × ℕ) → List (K × ℕ)
  group_sums [] = []
  group_sums ((k, a) ∷ rows) = bump k a (group_sums rows)

  -- `counts.get(key, 0)`
  unfoldable pub count_of : K → List (K × ℕ) → ℕ
  count_of k [] = 0
  count_of k ((j, n) ∷ m) = if e.same j k then n else count_of k m

  -- `sum(counts.values())`
  abbrev pub sum_values : List (K × ℕ) → ℕ
  sum_values [] = 0
  sum_values ((j, n) ∷ m) = n + sum_values m

  abbrev pub keys : List (K × ℕ) → List K
  keys [] = []
  keys ((j, n) ∷ m) = j ∷ keys m

  unfoldable pub has_key : K → List K → Bool
  has_key k [] = false
  has_key k (j ∷ js) = e.same j k || has_key k js

  -- `set(a) | set(b)`
  unfoldable pub union : List K → List K → List K
  union as' [] = as'
  union as' (b ∷ bs) = if has_key b as' then union as' bs else b ∷ union as' bs

  count_of-bump :
      (k j : K) (a : ℕ) (m : List (K × ℕ))
      → count_of j (bump k a m) ≡ (if e.same k j then a else 0) + count_of j m
  unfolding count_of bump
  count_of-bump k j a [] = ground arith
  count_of-bump k j a ((i, n) ∷ m) =
      ground (arith, count_of-bump k j a m, e.same_iff k j, e.same_iff i k, e.same_iff i j)

  pub count_of-group_counts :
      (j : K) (ks : List K) → count_of j (group_counts ks) ≡ count (λ k. e.same k j) ks
  unfolding count_of group_counts count
  count_of-group_counts j [] = refl
  count_of-group_counts j (k ∷ ks) =
      ground (arith, count_of-bump k j 1 (group_counts ks), count_of-group_counts j ks)

  -- The amounts of the rows with the key.
  unfoldable pub sum_at : K → List (K × ℕ) → ℕ
  sum_at j [] = 0
  sum_at j ((k, a) ∷ rows) = if e.same k j then a + sum_at j rows else sum_at j rows

  pub count_of-group_sums :
      (j : K) (rows : List (K × ℕ)) → count_of j (group_sums rows) ≡ sum_at j rows
  unfolding count_of group_sums sum_at
  count_of-group_sums j [] = refl
  count_of-group_sums j ((k, a) ∷ rows) =
      ground (arith, count_of-bump k j a (group_sums rows), count_of-group_sums j rows)

  sum_values-bump : (k : K) (a : ℕ) (m : List (K × ℕ)) → sum_values (bump k a m) ≡ a + sum_values m
  unfolding bump
  sum_values-bump k a [] = omega arith
  sum_values-bump k a ((j, n) ∷ m) = ground (arith, sum_values-bump k a m)

  pub sum_values-group_counts : (ks : List K) → sum_values (group_counts ks) ≡ length ks
  unfolding group_counts
  sum_values-group_counts [] = refl
  sum_values-group_counts (k ∷ ks) =
      ground (arith, sum_values-bump k 1 (group_counts ks), sum_values-group_counts ks)

  -- No key stands twice.
  unfoldable pub distinct_keys : List K → Bool
  distinct_keys [] = true
  distinct_keys (k ∷ ks) = if has_key k ks then false else distinct_keys ks

  has_key-bump :
      (j k : K) (a : ℕ) (m : List (K × ℕ))
      → has_key j (keys (bump k a m)) ≡ (e.same k j || has_key j (keys m))
  unfolding bump has_key
  has_key-bump j k a [] = ground arith
  has_key-bump j k a ((i, n) ∷ m) =
      ground (arith, has_key-bump j k a m, e.same_iff i k, e.same_iff i j, e.same_iff k j)

  distinct-bump :
      (k : K) (a : ℕ) (m : List (K × ℕ))
      → distinct_keys (keys m) ≡ true
      → distinct_keys (keys (bump k a m)) ≡ true
  unfolding bump distinct_keys has_key
  distinct-bump k a [] h = refl
  distinct-bump k a ((i, n) ∷ m) h =
      ground (arith, distinct-bump k a m, has_key-bump i k a m, e.same_iff i k, e.same_iff k i)

  pub distinct-group_counts : (ks : List K) → distinct_keys (keys (group_counts ks)) ≡ true
  unfolding group_counts distinct_keys
  distinct-group_counts [] = refl
  distinct-group_counts (k ∷ ks) = distinct-bump k 1 (group_counts ks) (distinct-group_counts ks)

  -- The sum of a count over a list of keys.
  unfoldable pub sum_over : List K → List (K × ℕ) → ℕ
  sum_over [] m = 0
  sum_over (k ∷ ks) m = count_of k m + sum_over ks m

  count_of-absent : (k : K) (m : List (K × ℕ)) → has_key k (keys m) ≡ false → count_of k m ≡ 0
  unfolding count_of has_key
  count_of-absent k [] h = refl
  count_of-absent k ((j, n) ∷ m) h = ground (arith, count_of-absent k m)

  sum_over-skip :
      (ks : List K) (j : K) (n : ℕ) (m : List (K × ℕ))
      → has_key j ks ≡ false
      → sum_over ks ((j, n) ∷ m) ≡ sum_over ks m
  unfolding sum_over count_of has_key
  sum_over-skip [] j n m h = refl
  sum_over-skip (k ∷ ks) j n m h =
      ground (arith, sum_over-skip ks j n m, e.same_iff j k, e.same_iff k j)

  pub sum_over-keys :
      (m : List (K × ℕ)) → distinct_keys (keys m) ≡ true → sum_over (keys m) m ≡ sum_values m
  unfolding sum_over distinct_keys count_of
  sum_over-keys [] h = refl
  sum_over-keys ((j, n) ∷ m) h =
      ground (arith, e.same_iff j j, sum_over-skip (keys m) j n m, sum_over-keys m)

  -- The keys of another dictionary add nothing.
  pub sum_over-union :
      (m : List (K × ℕ)) (bs : List K) → sum_over (union (keys m) bs) m ≡ sum_over (keys m) m
  unfolding union sum_over
  sum_over-union m [] = refl
  sum_over-union m (b ∷ bs) = ground (arith, sum_over-union m bs, count_of-absent b m)

  pub sum_values-group_sums : (rows : List (K × ℕ)) → sum_values (group_sums rows) ≡ sum_values rows
  unfolding group_sums
  sum_values-group_sums [] = refl
  sum_values-group_sums ((k, a) ∷ rows) =
      ground (arith, sum_values-bump k a (group_sums rows), sum_values-group_sums rows)

  sum_over-step :
      (ks : List K) (j : K) (n : ℕ) (m : List (K × ℕ))
      → distinct_keys ks ≡ true
      → sum_over ks ((j, n) ∷ m) ≤ n + sum_over ks m
  unfolding sum_over distinct_keys count_of
  sum_over-step [] j n m h = omega arith
  sum_over-step (k ∷ ks) j n m h =
      ground (arith, sum_over-step ks j n m, sum_over-skip ks j n m, e.same_iff j k)

  -- Different keys count no row twice.
  pub sum_over-le :
      (ks : List K) (m : List (K × ℕ)) → distinct_keys ks ≡ true → sum_over ks m ≤ sum_values m
  unfolding sum_over count_of
  sum_over-le ks [] h = none_at ks
    where
      none_at : (js : List K) → sum_over js [] ≤ 0
      none_at [] = omega arith
      none_at (j ∷ js) = omega (arith, none_at js)
  sum_over-le ks ((j, n) ∷ m) h = omega (arith, sum_over-step ks j n m h, sum_over-le ks m h)
