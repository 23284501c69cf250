-- ===== src/Reports/Domains.antt =====
-- The breakdown of a system by business domain.
use kaats_v.Base.{
  ℕ, ◌+◌, ◌*◌, ◌≤◌, ◌<◌, ◌≡◌, refl, ◌∙◌, Option, List, [], ◌∷◌, map, String, arith, select, length,
  length-select, count_of, keys, union, sum_over, sum_over-keys, sum_over-union,
  distinct-group_counts, sum_values-group_counts,
}
use kaats_v.Schema.{Db, Requirement}
use kaats_v.Quota.{Platform}
use kaats_v.Reports.{
  live_in, DomainRow, domains_of, domain_key, insert_domain, sort_domains, req_by_domain,
  scripts_by_domain, domain_row, coverage_by_domain, project_summary, approved_by_domain,
}

abbrev pub sum_requirements : List DomainRow → ℕ
sum_requirements [] = 0
sum_requirements (r ∷ rs) = r.requirement_count + sum_requirements rs

sum_over-insert :
    (d : Option String) (xs : List (Option String)) (m : List (Option String × ℕ))
    → sum_over domain_key (insert_domain d xs) m
      ≡ count_of domain_key d m + sum_over domain_key xs m
unfolding insert_domain sum_over
sum_over-insert d [] m = refl
sum_over-insert d (x ∷ xs) m = ground (arith, sum_over-insert d xs m)

sum_over-sort :
    (ds : List (Option String)) (m : List (Option String × ℕ))
    → sum_over domain_key (sort_domains ds) m ≡ sum_over domain_key ds m
unfolding sort_domains sum_over
sum_over-sort [] m = refl
sum_over-sort (d ∷ ds) m = omega (arith, sum_over-insert d (sort_domains ds) m, sum_over-sort ds m)

length-domains_of : (qs : List Requirement) → length (domains_of qs) ≡ length qs
length-domains_of [] = refl
length-domains_of (q ∷ qs) = omega (arith, length-domains_of qs)

-- `used` is at least two times `limit`.
far_over :
    (r used limit : ℕ)
    → 2000 * used ≤ 2 * (r * limit) + limit
    → 0 < limit
    → 2 * limit ≤ used
    → 1999 < r
far_over r used limit low pos over = grind arith

module _ (platform : Platform) where
  sum-rows :
      (system_id : ℕ) (db : Db) (ds : List (Option String))
      → sum_requirements (map (domain_row platform system_id db) ds)
        ≡ sum_over domain_key ds (req_by_domain system_id db)
  unfolding sum_over
  sum-rows system_id db [] = refl
  sum-rows system_id db (d ∷ ds) = omega (arith, sum-rows system_id db ds)

  -- The requirements of the rows of the breakdown add up to the requirements that the project
  -- summary counts: no requirement is missed, and none stands in two domains.
  pub coverage_by_domain-project_summary :
      (system_id : ℕ) (db : Db)
      → sum_requirements (coverage_by_domain platform system_id db)
        ≡ (project_summary system_id db).requirement_count
  unfolding coverage_by_domain project_summary req_by_domain
  coverage_by_domain-project_summary system_id db =
      let live = select (live_in system_id) db.requirements in
      let m = req_by_domain system_id db in
      let ds =
        union domain_key (keys domain_key m) (keys domain_key (scripts_by_domain system_id db)) in
      sum-rows system_id db (sort_domains ds)
      ∙ sum_over-sort ds m
      ∙ sum_over-union domain_key m (keys domain_key (scripts_by_domain system_id db))
      ∙ sum_over-keys domain_key m (distinct-group_counts domain_key (domains_of live))
      ∙ sum_values-group_counts domain_key (domains_of live)
      ∙ length-domains_of live
      ∙ length-select (live_in system_id) db.requirements

  -- The coverage of a domain counts scripts and not requirements: with at least two approved
  -- scripts for each of its requirements it is shown as 200 percent or more.
  pub domain_row-over :
      (system_id : ℕ) (db : Db) (d : Option String)
      → 0 < (domain_row platform system_id db d).requirement_count
      → 2 * (domain_row platform system_id db d).requirement_count
        ≤ (domain_row platform system_id db d).approved_script_count
      → 2000 ≤ (domain_row platform system_id db d).coverage_pct
  domain_row-over system_id db d pos over =
      let reqs = count_of domain_key d (req_by_domain system_id db) in
      let approved = count_of domain_key d (approved_by_domain system_id db) in
      ground (
        arith,
        platform.round_pct_low approved reqs,
        far_over (platform.round_pct approved reqs) approved reqs,
      )
