-- ===== src/Tests/Search.antt =====
-- A search for scripts of the second company.
use kaats_v.Base.{◌≡◌, ◌<◌, ◌⊎◌, Bool, List, [], ◌++◌, All, length, count, arith}
use kaats_v.Memory.{starts_with}
use kaats_v.Requirements.Import.{size}
use kaats_v.Webhooks.{strip_right, strip_left, strip}
use kaats_v.Search.{TextTests, Hit, all_hits, search}
use kaats_v.Search.Tenants.{OfCompany, search-OfCompany}
use kaats_v.Search.Hits.{IsRanked, search-IsRanked}
use kaats_v.Tests.Data.{one_script}
use text.Mathlib.Text.{◌==◌ as str_eq}

-- Texts that have one case only, found by their beginnings.
abbrev tests : TextTests
tests = record {
  strip = strip;
  lower = λ s. s;
  len = size;
  equal = str_eq;
  starts = λ term s. starts_with term s;
  like = λ term s. starts_with term s;
  agent_text = λ _. "crawl";
  run_label = λ s. s;
}

search-OfCompany_example :
    All (OfCompany tests 20 one_script) (search tests (λ _. "books") "Log" 20 10 one_script)
search-OfCompany_example = search-OfCompany tests 20 one_script (λ _. "books") "Log" 10

search-IsRanked_example :
    let hits = search tests (λ _. "books") "Log" 20 10 one_script in
    let term = tests.lower (tests.strip "Log") in
    (rest : List Hit) × IsRanked tests term (hits ++ rest)
    × ((p : Hit → Bool)
        → count p (hits ++ rest) ≡ count p (all_hits tests (λ _. "books") term 20 10 one_script))
    × ((length hits ≡ 10) ⊎ ((length hits < 10) × (rest ≡ [])))
unfolding size strip strip_right strip_left
search-IsRanked_example = search-IsRanked tests (λ _. "books") "Log" 20 10 one_script (omega arith)
