-- ===== src/Browsers.antt =====
-- The pool of browsers that agent runs share: BrowserPool of backend/app/agents/browser_pool.py.
pub mod Exclusive
use kaats_v.Base.{ℕ, zero, suc, ◌+◌, Bool, Option, none, some, List, [], ◌∷◌, ltb, if◌then◌else◌}

-- `_browsers`, of which the code uses the number and the positions, and the queue `_available`.
pub record BrowserPool : Type 0 where
  pub browsers : ℕ
  pub available : List ℕ

-- A browser context with the attribute `_pool_idx`, where it has one.
pub record Context : Type 0 where
  pub pool_idx : Option ℕ

abbrev pub put : {A : Type 0} → A → List A → List A
put x [] = x ∷ []
put x (y ∷ ys) = y ∷ put x ys

-- The loop of `start`, in which every launch succeeds, from the position `i` on.
abbrev pub launch_each : ℕ → ℕ → BrowserPool → BrowserPool
launch_each zero i pool = pool
launch_each (suc n) i pool =
    launch_each n (suc i)
      (record { browsers = pool.browsers + 1; available = put i pool.available })

unfoldable pub start : ℕ → BrowserPool
start size = launch_each size 0 (record { browsers = 0; available = [] })

-- How the browser answers `new_context` and `new_page`.
pub data Opening : Type 0 where
  opens context_raises page_raises : Opening

-- `acquire` waits, raises, or returns a context.
pub data Acquired : Type 0 where
  blocked raised : Acquired
  acquired : Context → Acquired

abbrev pub opened : Opening → ℕ → Acquired
opened Opening.opens i = acquired (record { pool_idx = some i })
opened _ i = raised

-- The position is out of the queue before the browser is asked.
abbrev pub acquire_from : Opening → ℕ → List ℕ → Acquired × BrowserPool
acquire_from opening n [] = (blocked, record { browsers = n; available = [] })
acquire_from opening n (i ∷ rest) =
    (if ltb i n then opened opening i else raised, record { browsers = n; available = rest })

unfoldable pub acquire : Opening → BrowserPool → Acquired × BrowserPool
acquire opening pool = acquire_from opening pool.browsers pool.available

-- `release` puts the position back, whether or not closing the context raises.
abbrev pub put_idx : Option ℕ → List ℕ → List ℕ
put_idx none q = q
put_idx (some i) q = put i q

unfoldable pub release : Context → BrowserPool → BrowserPool
release ctx pool = record pool { available = put_idx ctx.pool_idx pool.available }
