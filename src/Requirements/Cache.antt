-- ===== src/Requirements/Cache.antt =====
-- When a quality score is up to date.
use kaats_v.Base.{
  ℕ, ◌<◌, ◌≡◌, refl, true, none, some, List, [], ◌∷◌, arith, get, get-key, get-replace, ok, err,
  http, requirement_not_found,
}
use kaats_v.Schema.{Requirement}
use kaats_v.Requirements.{
  State, CacheEntry, TextMeasures, RequirementUpdate, load_requirement, put_requirement, evict,
  updated_requirement, update_requirement, approved_count, soft_delete_requirement, compute_quality,
  quality_check,
}

get-evict : (i : ℕ) (es : List CacheEntry) → get CacheEntry.key i (evict i es) ≡ none
unfolding get evict
get-evict i [] = refl
get-evict i (e ∷ es) = ground (arith, get-evict i es)

module _ (text : TextMeasures) where
  -- After an update of a stored requirement that is not deleted, the score is computed anew, from
  -- the title and the description that the update left.
  pub update_requirement-quality_check :
      (now i : ℕ) (body : RequirementUpdate) (q : Requirement) (s : State)
      → get Requirement.id i s.db.requirements ≡ some q
      → q.deleted_at ≡ none
      → let new = updated_requirement body q in
        (quality_check text now i (update_requirement i body s).1).0
        ≡ ok (compute_quality text new.title new.description)
  unfolding quality_check update_requirement load_requirement put_requirement
  update_requirement-quality_check now i body q s h d =
      let key = get-key Requirement.id i q s.db.requirements h in
      ground (
        arith,
        get-evict i s.cache,
        get-replace Requirement.id i (updated_requirement body q) q s.db.requirements,
      )

  -- A deletion does not evict: a score that is in the cache and has not expired is still returned
  -- for a requirement that is deleted, where one that is not cached raises 404.
  pub soft_delete_requirement-quality_check :
      (now later i : ℕ) (e : CacheEntry) (q : Requirement) (s : State)
      → get Requirement.id i s.db.requirements ≡ some q
      → q.deleted_at ≡ none
      → approved_count i s.db ≡ 0
      → get CacheEntry.key i s.cache ≡ some e
      → later < e.expires
      → let s' = (soft_delete_requirement now i s).1 in
        ((load_requirement i s').0 ≡ err (http 404 requirement_not_found))
        × ((quality_check text later i s').0 ≡ ok (let r = e.result in record r { cached = true }))
  unfolding quality_check soft_delete_requirement load_requirement put_requirement
  soft_delete_requirement-quality_check now later i e q s h d z c l =
      let key = get-key Requirement.id i q s.db.requirements h in
      (
        ground (
          arith,
          get-replace Requirement.id i (record q { deleted_at = some now }) q s.db.requirements,
        ),
        ground arith,
      )
