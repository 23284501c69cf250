-- ===== src/Crawl.antt =====
-- The tools with which the crawl agent walks a site: backend/app/agents/tool_registry.py, and the
-- start of a crawl in backend/app/agents/crawl_agent.py. The browser is a parameter: each call
-- carries what the page answers.
pub mod Links
pub mod Visits
pub mod Complete
use Prim.Native.Char.{code}
use kaats_v.Base.{
  ℕ, zero, suc, ◌+◌, Bool, true, false, ◌&&◌, ◌||◌, not, Option, none, some, List, [], ◌∷◌, ◌++◌,
  String, ◌==◌, if◌then◌else◌, Result, ok, err, Error, other_exception,
}
use kaats_v.Memory.{
  Value, items, members, WorkingMemory, elem_text, starts_with, set, find, held_in, append,
  add_to_set, in_set, save_to_memory,
}

-- The working memory of the run, the URLs that `page.goto` was asked for and has loaded, and the
-- URLs at which a clicked tile left the page, the last ones first.
pub record Crawl : Type 0 where
  pub memory : WorkingMemory
  pub gotos : List String
  pub launches : List String

-- What a tool answers to the agent; an exception that a tool catches is an error text.
pub data Reply : Type 0 where
  no_page already_visited navigated error_text stored_text : Reply
  offered : List String → Reply

-- `run_agent` starts with empty collections.
unfoldable pub start_crawl : WorkingMemory → Crawl
start_crawl m = record {
  memory = set "failed_pages" (items []) (
      set "crawl_screenshots" (items [])
        (set "crawl_requirement_ids" (items []) (set "visited_urls" (members []) m)));
  gotos = [];
  launches = [];
}

-- How the browser answers: there is no page, or `goto` raises, or it loads and reading the title
-- raises, or neither.
pub data Loading : Type 0 where
  missing_page goto_raises title_raises loads_page : Loading

-- A write to the memory inside the `try`: where it raises, the tool answers with an error text.
abbrev pub kept_or_error : Reply → Result WorkingMemory → Crawl → Reply × Crawl
kept_or_error reply (ok m) c = (reply, record c { memory = m })
kept_or_error reply (err e) c = (error_text, c)

abbrev pub reply_of : Loading → Reply
reply_of Loading.loads_page = navigated
reply_of _ = error_text

abbrev pub visit : String → Loading → Crawl → Reply × Crawl
visit url Loading.goto_raises c = (error_text, c)
visit url loading c =
    kept_or_error (reply_of loading) (add_to_set "visited_urls" url c.memory)
      (record c { gotos = url ∷ c.gotos })

-- The test stands before the `try`, so what it raises leaves the tool.
abbrev pub unless_visited : Result Bool → String → Loading → Crawl → Result Reply × Crawl
unless_visited (err e) url loading c = (err e, c)
unless_visited (ok true) url loading c = (ok already_visited, c)
unless_visited (ok false) url loading c = let (r, c') = visit url loading c in (ok r, c')

unfoldable pub navigate_to_url : String → Loading → Crawl → Result Reply × Crawl
navigate_to_url url Loading.missing_page c = (ok no_page, c)
navigate_to_url url loading c = unless_visited (in_set "visited_urls" url c.memory) url loading c

-- How the browser answers to a click on a tile: there is no page, or no selector finds the tile, or
-- the click succeeds and waiting for the application raises, or the page is then at a URL.
pub data Launching : Type 0 where
  without_page no_tile wait_raises : Launching
  opens : String → Launching

-- The tile is clicked whether its application was visited or not; the page loads before the URL is
-- noted.
unfoldable pub launch_sap_fiori_app : Launching → Crawl → Result Reply × Crawl
launch_sap_fiori_app Launching.without_page c = (ok no_page, c)
launch_sap_fiori_app Launching.no_tile c = (ok error_text, c)
launch_sap_fiori_app Launching.wait_raises c = (ok error_text, c)
launch_sap_fiori_app (Launching.opens url) c =
    let (r, c') =
      kept_or_error navigated (add_to_set "visited_urls" url c.memory)
        (record c { launches = url ∷ c.launches }) in
    (ok r, c')

abbrev pub kept_unless : Bool → String → List String → List String
kept_unless true x xs = xs
kept_unless false x xs = x ∷ xs

-- `[...new Set(hrefs)]` in the page: the first of each.
unfoldable pub distinct_texts : List String → List String → List String
distinct_texts seen [] = []
distinct_texts seen (x ∷ xs) = kept_unless (elem_text x seen) x (distinct_texts (x ∷ seen) xs)

-- `.filter(h => h.startsWith(origin))`
unfoldable pub same_origin : String → List String → List String
same_origin origin [] = []
same_origin origin (x ∷ xs) =
    if starts_with origin x then x ∷ same_origin origin xs else same_origin origin xs

-- `[lnk for lnk in all_links if lnk not in visited]`; the test may raise.
abbrev pub keep_unvisited : Result Bool → String → Result (List String) → Result (List String)
keep_unvisited (err e) x r = err e
keep_unvisited (ok true) x r = r
keep_unvisited (ok false) x (ok xs) = ok (x ∷ xs)
keep_unvisited (ok false) x (err e) = err e

unfoldable pub unvisited : WorkingMemory → List String → Result (List String)
unvisited m [] = ok []
unvisited m (x ∷ xs) = keep_unvisited (in_set "visited_urls" x m) x (unvisited m xs)

-- `lnk.split("?")[0]`
unfoldable pub base_of : String → String
base_of String.[] = String.[]
base_of (String.◌∷◌ c s) = if code c == b'?' then String.[] else String.◌∷◌ c (base_of s)

-- The loop over `unvisited`; `seen` holds the bases so far.
unfoldable pub dedupe : List String → List String → List String
dedupe seen [] = []
dedupe seen (x ∷ xs) =
    let old = elem_text (base_of x) seen in
    kept_unless old x (dedupe (if old then seen else base_of x ∷ seen) xs)

-- `deduped[:max_links]`, at a bound that is not negative.
unfoldable pub take : ℕ → List String → List String
take zero xs = []
take (suc n) [] = []
take (suc n) (x ∷ xs) = x ∷ take n xs

abbrev pub offer : ℕ → Result (List String) → Reply
offer n (ok xs) = offered (take n (dedupe [] xs))
offer n (err e) = error_text

-- `hrefs` are those of the page, and `origin` is its `window.location.origin`.
unfoldable pub get_unvisited_links : ℕ → String → List String → Crawl → Result Reply × Crawl
get_unvisited_links n origin hrefs c =
    (ok (offer n (unvisited c.memory (same_origin origin (distinct_texts [] hrefs)))), c)

unfoldable pub remember : String → String → Crawl → Result Reply × Crawl
remember k v c = (ok stored_text, record c { memory = save_to_memory k v c.memory })

-- The step of `save_requirement` on the memory, after the row was stored; it is inside the `try`.
unfoldable pub note_requirement : String → Crawl → Result Reply × Crawl
note_requirement id c =
    let (r, c') = kept_or_error stored_text (append "crawl_requirement_ids" id c.memory) c in
    (ok r, c')

-- A call of a tool by the agent.
pub data Call : Type 0 where
  navigate : String → Loading → Call
  launch : Launching → Call
  links : ℕ → String → List String → Call
  save : String → String → Call
  requirement : String → Call

unfoldable pub run_call : Call → Crawl → Result Reply × Crawl
run_call (navigate url loading) c = navigate_to_url url loading c
run_call (launch answer) c = launch_sap_fiori_app answer c
run_call (links n origin hrefs) c = get_unvisited_links n origin hrefs c
run_call (save k v) c = remember k v c
run_call (requirement id) c = note_requirement id c

-- The calls up to the first that raises; an exception ends the executor.
unfoldable pub run_calls : List Call → Crawl → Crawl
run_calls [] c = c
run_calls (a ∷ as') c =
    let rest = run_calls as' (run_call a c).1 in
    elim (run_call a c).0 [ ok r ↦ rest | err e ↦ (run_call a c).1 ]
