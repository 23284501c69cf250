-- ===== src/Crawl/Visits.antt =====
-- Which pages a crawl opens by `navigate_to_url`.
use kaats_v.Base.{◌≡◌, Bool, true, false, not, some, List, ◌∷◌, String, arith, ok}
use kaats_v.Memory.{entry, members, elem_text, is_part, set, find, str, add_to_set, in_set}
use kaats_v.Memory.Snapshot.{at_key-put_entry}
use kaats_v.Crawl.{Crawl, Loading, navigate_to_url, remember, Call, save, error_text}
use kaats_v.Crawl.Links.{no_repeats}
use text.Mathlib.Text.{◌==◌ as str_eq}
use text.Mathlib.TextEquality.{eq_iff}

-- The memory holds a set of visited URLs in which every URL is that `navigate_to_url`
-- opened, and it opened none twice.
abbrev IsTracked : Crawl → Type 0
IsTracked c =
    (xs : List String) × (find "visited_urls" c.memory ≡ some (members xs))
    × ((u : String) → elem_text u c.gotos ≡ true → elem_text u xs ≡ true)
    × (no_repeats c.gotos ≡ true)

-- Every call but a write of `visited_urls` by `save_to_memory`.
abbrev pub leaves_visits : Call → Bool
leaves_visits (save k v) = not (str_eq k "visited_urls")
leaves_visits _ = true

-- A text that `save_to_memory` writes under the key of the visited URLs makes the crawl forget
-- them: a URL that is no part of the text is loaded, however often it was loaded before, and
-- the answer is an error, since the text takes no element.
pub remember-forgets :
    (v url : String) (c : Crawl)
    → is_part url v ≡ false
    → let c' = (remember "visited_urls" v c).1 in
      navigate_to_url url Loading.loads_page c'
      ≡ (ok error_text, record c' { gotos = url ∷ c.gotos })
unfolding remember navigate_to_url in_set add_to_set
remember-forgets v url c h =
    let e = at_key-put_entry c.memory.store (entry "visited_urls" (str v)) "visited_urls" in
    let r = eq_iff "visited_urls" "visited_urls" in
    let w : find "visited_urls" (set "visited_urls" (str v) c.memory) ≡ some (str v) =
      ground (arith, e, r) in
    ground (arith, w)
