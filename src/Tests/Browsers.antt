-- ===== src/Tests/Browsers.antt =====
-- A pool of two browsers: one run acquires and releases, the page of another does not open.
use kaats_v.Base.{ℕ, ◌+◌, ◌≤◌, ◌≡◌, List, [], ◌∷◌, count, length}
use kaats_v.Browsers.{Opening}
use kaats_v.Browsers.Exclusive.{
  Event, acquires, releases, serve_events, started, at, holds, serve_events-exclusive,
}

abbrev two_runs : List Event
two_runs =
    acquires Opening.opens ∷ acquires Opening.page_raises ∷ releases 0 ∷ acquires Opening.opens ∷ []

serve_events-exclusive_example :
    let r = serve_events two_runs (started 2) in
    ((i : ℕ) → count (at i) r.pool.available + count (holds i) r.held ≤ 1)
    × (length r.pool.available + length r.held + r.failures ≡ 2)
serve_events-exclusive_example = serve_events-exclusive 2 two_runs
