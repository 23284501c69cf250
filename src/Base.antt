-- ===== src/Base.antt =====
-- The names that every other module shares: the libraries', passed on, Boolean tests, tables of
-- rows, and results of requests.
mod Tests
pub mod Rows
mod Outcome
mod Groups
pub use Tests.*
unfoldable pub use Rows.*
unfoldable pub use Outcome.*
unfoldable pub use Groups.*
pub use Prim.Native.Nat.{ℕ, zero, suc, ◌+◌, ◌-◌, ◌*◌, ◌/◌, ◌%◌, ◌^◌, ◌≤◌, ◌<◌, max, min}
pub use mathlib.Core.Path.{◌≡◌, refl, sym, ap, ◌∙◌, subst}
pub use mathlib.Core.Logic.{◌≢◌, ◌↔◌, ◌⊎◌, inl, inr}
pub use mathlib.Core.Bool.{Bool, true, false, ◌&&◌, ◌||◌, not}
pub use mathlib.Core.Option.{Option, none, some}
pub use mathlib.Core.List.{List, [], ◌∷◌, ◌++◌, map, Memᴰ}
pub use native.Mathlib.Omega.{arith}
pub use Prim.Native.String.{String}
