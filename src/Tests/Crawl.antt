-- ===== src/Tests/Crawl.antt =====
-- A crawl of a small site, and a memory with a set.
use kaats_v.Base.{
  ◌≤◌, ◌≡◌, refl, true, some, List, [], ◌∷◌, String, All, length, arith, ok, err, attribute_error,
}
use kaats_v.Memory.{
  at_key, entry, starts_with, members, items, WorkingMemory, set, find, add_to_set, in_set,
  snapshot, from_snapshot, elem_text, with_member,
}
use kaats_v.Memory.Snapshot.{from_snapshot-snapshot}
use kaats_v.Crawl.{
  take, distinct_texts, dedupe, same_origin, unvisited, Crawl, offered, Loading, Call, navigate,
  launch, Launching, links, save, requirement, base_of, get_unvisited_links,
}
use kaats_v.Crawl.Links.{bases, no_repeats, MayOffer, get_unvisited_links-bounded}
use kaats_v.Crawl.Complete.{get_unvisited_links_complete}

abbrev empty_memory : WorkingMemory
empty_memory = record { store = [] }

abbrev visited_home : WorkingMemory
visited_home = record { store = entry "visited_urls" (members ("https://erp/home" ∷ [])) ∷ [] }

abbrev at_home : Crawl
at_home = record { memory = visited_home; gotos = "https://erp/home" ∷ []; launches = [] }

abbrev page : List String
page = "https://erp/home" ∷ "https://erp/a?x=1" ∷ "https://erp/a?x=2" ∷ "https://other/" ∷ []

from_snapshot-snapshot_example :
    let restored = from_snapshot (snapshot visited_home) in
    (in_set "visited_urls" "https://erp/home" restored
      ≡ in_set "visited_urls" "https://erp/home" visited_home)
    × (find "visited_urls" restored ≡ some (items ("https://erp/home" ∷ [])))
    × (add_to_set "visited_urls" "https://erp/home" restored ≡ err attribute_error)
    × (add_to_set "visited_urls" "https://erp/home" visited_home
        ≡ ok (
            set "visited_urls"
              (members (with_member "https://erp/home" ("https://erp/home" ∷ [])))
              visited_home))
unfolding at_key
from_snapshot-snapshot_example =
    from_snapshot-snapshot "visited_urls" ("https://erp/home" ∷ []) visited_home "visited_urls"
      "https://erp/home" refl

get_unvisited_links-bounded_example :
    (ls : List String) × (get_unvisited_links 5 "https://erp" page at_home
      ≡ (ok (offered ls), at_home))
    × (length ls ≤ 5)
    × (no_repeats (bases ls) ≡ true)
    × All (MayOffer "https://erp" page ("https://erp/home" ∷ [])) ls
unfolding at_key
get_unvisited_links-bounded_example =
    get_unvisited_links-bounded 5 "https://erp" page ("https://erp/home" ∷ []) at_home refl

get_unvisited_links_complete_example :
    elem_text (base_of "https://erp/a?x=2") (bases ("https://erp/a?x=1" ∷ [])) ≡ true
unfolding at_key get_unvisited_links elem_text starts_with unvisited same_origin distinct_texts
    in_set take dedupe base_of
get_unvisited_links_complete_example =
    get_unvisited_links_complete 5 "https://erp" page ("https://erp/home" ∷ [])
      ("https://erp/a?x=1" ∷ []) at_home "https://erp/a?x=2" refl refl (omega arith)
      (refl, refl, refl)

abbrev calls : List Call
calls =
    navigate "https://erp/home" Loading.loads_page
    ∷ links 5 "https://erp" page
    ∷ launch (Launching.opens "https://erp/app")
    ∷ launch (Launching.opens "https://erp/app")
    ∷ navigate "https://erp/home" Loading.loads_page
    ∷ save "note" "done"
    ∷ requirement "r1"
    ∷ []
