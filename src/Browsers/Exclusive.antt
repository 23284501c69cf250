-- ===== src/Browsers/Exclusive.antt =====
-- Runs that take turns at the pool of browsers.
use kaats_v.Base.{
  ℕ, zero, suc, ◌+◌, ◌≤◌, ◌≡◌, refl, ◌==◌, true, Bool, Option, none, some, List, [], ◌∷◌, ltb, leb,
  ◌&&◌, arith, opt_is, is_some, count, length, if◌then◌else◌,
}
use kaats_v.Browsers.{
  BrowserPool, Context, put, launch_each, start, Opening, Acquired, blocked, raised, acquired,
  acquire, release,
}

-- The pool, the contexts that runs hold, and the number of calls of `acquire` that raised.
pub record Runs : Type 0 where
  pub pool : BrowserPool
  pub held : List Context
  pub failures : ℕ

-- A run acquires a context, or the holder of the context at a position releases it.
pub data Event : Type 0 where
  acquires : Opening → Event
  releases : ℕ → Event

abbrev after_acquire : Acquired → BrowserPool → Runs → Runs
after_acquire blocked pool r = record r { pool = pool }
after_acquire raised pool r = record r { pool = pool; failures = r.failures + 1 }
after_acquire (acquired c) pool r = record r { pool = pool; held = c ∷ r.held }

abbrev nth : ℕ → List Context → Option Context
nth n [] = none
nth zero (c ∷ cs) = some c
nth (suc n) (c ∷ cs) = nth n cs

abbrev without : ℕ → List Context → List Context
without n [] = []
without zero (c ∷ cs) = cs
without (suc n) (c ∷ cs) = c ∷ without n cs

abbrev after_release : Option Context → ℕ → Runs → Runs
after_release none n r = r
after_release (some c) n r = record r { pool = release c r.pool; held = without n r.held }

unfoldable pub serve_event : Event → Runs → Runs
serve_event (acquires o) r = let (a, pool) = acquire o r.pool in after_acquire a pool r
serve_event (releases n) r = after_release (nth n r.held) n r

unfoldable pub serve_events : List Event → Runs → Runs
serve_events [] r = r
serve_events (e ∷ es) r = serve_events es (serve_event e r)

abbrev pub started : ℕ → Runs
started size = record { pool = start size; held = []; failures = 0 }

abbrev pub at : ℕ → ℕ → Bool
at i j = j == i

abbrev pub holds : ℕ → Context → Bool
holds i c = opt_is c.pool_idx i

count-put :
    {A : Type 0} (p : A → Bool) (x : A) (q : List A)
    → count p (put x q) ≡ count p q + (if p x then 1 else 0)
unfolding count
count-put p x [] = ground arith
count-put p x (y ∷ q) = ground (arith, count-put p x q)

length-put : {A : Type 0} (x : A) (q : List A) → length (put x q) ≡ length q + 1
length-put x [] = omega arith
length-put x (y ∷ q) = omega (arith, length-put x q)

count-without :
    (p : Context → Bool) (n : ℕ) (c : Context) (cs : List Context)
    → nth n cs ≡ some c
    → count p (without n cs) + (if p c then 1 else 0) ≡ count p cs
unfolding count
count-without p n c [] h = ground arith
count-without p zero c (d ∷ cs) h = ground arith
count-without p (suc n) c (d ∷ cs) h = ground (arith, count-without p n c cs h)

length-without :
    (n : ℕ) (c : Context) (cs : List Context)
    → nth n cs ≡ some c
    → length (without n cs) + 1 ≡ length cs
length-without n c [] h = ground arith
length-without zero c (d ∷ cs) h = omega arith
length-without (suc n) c (d ∷ cs) h = omega (arith, length-without n c cs h)

launch_each-count :
    (i n k : ℕ) (pool : BrowserPool)
    → count (at i) (launch_each n k pool).available
      ≡ count (at i) pool.available + (if leb k i && ltb i (k + n) then 1 else 0)
launch_each-count i zero k pool = ground arith
launch_each-count i (suc n) k pool =
    let next : BrowserPool = record {
      browsers = pool.browsers + 1;
      available = put k pool.available;
    } in
    ground (arith, launch_each-count i n (suc k) next, count-put (at i) k pool.available)

launch_each-length :
    (n k : ℕ) (pool : BrowserPool)
    → length (launch_each n k pool).available ≡ length pool.available + n
launch_each-length zero k pool = omega arith
launch_each-length (suc n) k pool =
    let next : BrowserPool = record {
      browsers = pool.browsers + 1;
      available = put k pool.available;
    } in
    omega (arith, launch_each-length n (suc k) next, length-put k pool.available)

-- Every context that a run holds carries its position.
abbrev is_pooled : Context → Bool
is_pooled c = is_some c.pool_idx

abbrev all_pooled : List Context → Bool
all_pooled [] = true
all_pooled (c ∷ cs) = is_pooled c && all_pooled cs

abbrev owners : ℕ → Runs → ℕ
owners i r = count (at i) r.pool.available + count (holds i) r.held

abbrev places : Runs → ℕ
places r = length r.pool.available + length r.held + r.failures

pooled :
    (n : ℕ) (c : Context) (cs : List Context)
    → all_pooled cs ≡ true
    → nth n cs ≡ some c
    → is_pooled c ≡ true
pooled n c [] a h = ground arith
pooled zero c (d ∷ cs) a h = ground arith
pooled (suc n) c (d ∷ cs) a h = ground (arith, pooled n c cs)

all_pooled-without :
    (n : ℕ) (cs : List Context) → all_pooled cs ≡ true → all_pooled (without n cs) ≡ true
all_pooled-without n [] a = refl
all_pooled-without zero (d ∷ cs) a = ground arith
all_pooled-without (suc n) (d ∷ cs) a = ground (arith, all_pooled-without n cs)

-- A step keeps what is owned, or loses it.
abbrev Kept : Runs → Runs → Type 0
Kept r r' =
    (all_pooled r'.held ≡ true) × (places r' ≡ places r) × ((i : ℕ) → owners i r' ≤ owners i r)

acquired-Kept :
    (o : Opening) (n f : ℕ) (q : List ℕ) (cs : List Context)
    → all_pooled cs ≡ true
    → let r : Runs = record {
      pool = record { browsers = n; available = q };
      held = cs;
      failures = f;
    } in
      Kept r (serve_event (acquires o) r)
unfolding serve_event acquire count
acquired-Kept o n f [] cs a = (a, refl, λ i. omega arith)
acquired-Kept Opening.opens n f (j ∷ q) cs a = (ground arith, ground arith, λ i. ground arith)
acquired-Kept Opening.context_raises n f (j ∷ q) cs a =
    (ground arith, ground arith, λ i. ground arith)
acquired-Kept Opening.page_raises n f (j ∷ q) cs a = (ground arith, ground arith, λ i. ground arith)

put_back-Kept :
    (n : ℕ) (o : Option ℕ) (r : Runs)
    → nth n r.held ≡ some (record { pool_idx = o })
    → all_pooled r.held ≡ true
    → Kept r (after_release (some (record { pool_idx = o })) n r)
unfolding release
put_back-Kept n none r h a = ground (arith, pooled n (record { pool_idx = none }) r.held a h)
put_back-Kept n (some j) r h a =
    let c : Context = record { pool_idx = some j } in
    (
      all_pooled-without n r.held a,
      omega (arith, length-put j r.pool.available, length-without n c r.held h),
      λ i.
          ground (arith, count-put (at i) j r.pool.available, count-without (holds i) n c r.held h),
    )

released-Kept :
    (n : ℕ) (o : Option Context) (r : Runs)
    → nth n r.held ≡ o
    → all_pooled r.held ≡ true
    → Kept r (after_release o n r)
released-Kept n none r h a = (a, refl, λ i. omega arith)
released-Kept n (some c) r h a = put_back-Kept n c.pool_idx r h a

serve_event-Kept : (e : Event) (r : Runs) → all_pooled r.held ≡ true → Kept r (serve_event e r)
unfolding serve_event
serve_event-Kept (acquires o) r a =
    acquired-Kept o r.pool.browsers r.failures r.pool.available r.held a
serve_event-Kept (releases n) r a = released-Kept n (nth n r.held) r refl a

serve_events-Kept :
    (es : List Event) (r : Runs) → all_pooled r.held ≡ true → Kept r (serve_events es r)
unfolding serve_events
serve_events-Kept [] r a = (a, refl, λ i. omega arith)
serve_events-Kept (e ∷ es) r a =
    let (b, p, o) = serve_event-Kept e r a in
    let (c, p', o') = serve_events-Kept es (serve_event e r) b in
    (c, omega arith, λ i. omega (arith, o i, o' i))

-- Whatever runs acquire and release contexts that they hold, and whenever the browser raises: at
-- most one run at a time holds a context of each browser, and then that browser is not in the
-- queue; the browsers in the queue, the contexts held and the calls of `acquire` that raised
-- add up to the size of the pool, so each call that raised has taken a browser for good.
pub serve_events-exclusive :
    (size : ℕ) (es : List Event)
    → let r = serve_events es (started size) in
      ((i : ℕ) → count (at i) r.pool.available + count (holds i) r.held ≤ 1)
      × (length r.pool.available + length r.held + r.failures ≡ size)
unfolding start count
serve_events-exclusive size es =
    let (c, p, o) = serve_events-Kept es (started size) refl in
    let empty : BrowserPool = record { browsers = 0; available = [] } in
    (
      λ i. ground (arith, o i, launch_each-count i size 0 empty),
      omega (arith, launch_each-length size 0 empty),
    )
