-- ===== src/Quota/Enforcement.antt =====
-- When the quota check blocks a run: never below 99.95 percent of a limit, always at the limit.
use kaats_v.Base.{
  ℕ, ◌+◌, ◌*◌, ◌≤◌, ◌<◌, ◌≡◌, ◌↔◌, ◌⊎◌, inl, inr, refl, true, false, Option, none, some, arith, ok,
  err, http, tokens_exceeded,
}
use kaats_v.Schema.{Db}
use kaats_v.Quota.{
  Platform, get_plan, effective_limits, tokens_used_since, runs_used_since, reaches, pct,
  get_quota_status, assert_agent_run_allowed,
}

low_product : (r limit : ℕ) → r ≤ 999 → r * limit ≤ 999 * limit
low_product r limit h = grind arith

high_product : (r limit : ℕ) → 1000 ≤ r → 1000 * limit ≤ r * limit
high_product r limit h = grind arith

full :
    (r used limit : ℕ) → 2000 * used ≤ 2 * (r * limit) + limit → 0 < limit → limit ≤ used → 1000 ≤ r
full r used limit low pos h = elim (leb_cases r) [
  | inl k ↦ k
  | inr k ↦ absurd (omega (arith, low_product r limit k))
]
  where
    leb_cases : (r : ℕ) → (1000 ≤ r) ⊎ (r ≤ 999)
    leb_cases r = omega arith

module _ (platform : Platform) where
  -- At or above 99.95 percent of a limit, the limit itself excluded from below, the rounded
  -- percentage reaches 100.
  reaches_near :
      (used limit : ℕ)
      → 2000 * limit < 2000 * used + limit ⊎ (limit ≤ used)
      → reaches (pct platform used (some limit)) 1000 ≡ true
  unfolding pct
  reaches_near used limit h =
      ground (
        arith,
        platform.round_pct_low used limit,
        low_product (platform.round_pct used limit) limit,
      )

  reaches_far :
      (used limit : ℕ)
      → 2000 * used + limit < 2000 * limit
      → reaches (pct platform used (some limit)) 1000 ≡ false
  unfolding pct
  reaches_far used limit h = ground (
    arith,
    platform.round_pct_high used limit,
    high_product (platform.round_pct used limit) limit,
  )

  small_limit :
      (used limit : ℕ)
      → limit < 2000
      → reaches (pct platform used (some limit)) 1000 ≡ true
      → limit ≤ used
  small_limit used limit small h = ground (arith, reaches_far used limit)

  -- The use is below the limit, if there is one.
  abbrev pub Below : ℕ → Option ℕ → Type 0
  Below used none = Unit
  Below used (some limit) = used < limit

  -- The use is so far below the limit that the percentage, rounded to one digit, stays below 100.
  abbrev pub FarBelow : ℕ → Option ℕ → Type 0
  FarBelow used none = Unit
  FarBelow used (some limit) = 2000 * used + limit < 2000 * limit

  unreached-Below :
      (used : ℕ) (o : Option ℕ) → reaches (pct platform used o) 1000 ≡ false → Below used o
  unreached-Below used none h = tt
  unreached-Below used (some limit) h = ground (arith, reaches_near used limit)

  FarBelow-unreached :
      (used : ℕ) (o : Option ℕ) → FarBelow used o → reaches (pct platform used o) 1000 ≡ false
  unfolding pct
  FarBelow-unreached used none h = refl
  FarBelow-unreached used (some limit) h = reaches_far used limit h

  -- A run is allowed only while the company's runs and tokens of the month are below the limits
  -- of its plan.
  pub assert_agent_run_allowed-Below :
      (now company_id : ℕ) (db : Db)
      → assert_agent_run_allowed platform now company_id db ≡ ok tt
      → let limits = effective_limits (get_plan company_id db) in
        let start = platform.month_start now in
        Below (runs_used_since company_id start db) limits.monthly_agent_run_limit
        × Below (tokens_used_since company_id start db) limits.monthly_token_limit
  unfolding assert_agent_run_allowed
  assert_agent_run_allowed-Below now company_id db h =
      (unreached-Below _ _ (ground arith), unreached-Below _ _ (ground arith))

  -- A run is allowed whenever both uses are below 99.95 percent of the limits of the plan.
  pub FarBelow-assert_agent_run_allowed :
      (now company_id : ℕ) (db : Db)
      → FarBelow
          (runs_used_since company_id (platform.month_start now) db)
          (effective_limits (get_plan company_id db)).monthly_agent_run_limit
      → FarBelow
          (tokens_used_since company_id (platform.month_start now) db)
          (effective_limits (get_plan company_id db)).monthly_token_limit
      → assert_agent_run_allowed platform now company_id db ≡ ok tt
  unfolding assert_agent_run_allowed
  FarBelow-assert_agent_run_allowed now company_id db r t =
      let start = platform.month_start now in
      rw (
        FarBelow-unreached (runs_used_since company_id start db) _ r,
        FarBelow-unreached (tokens_used_since company_id start db) _ t,
      )

  -- A limit of fewer than 2000 runs blocks exactly from the limit on.
  pub runs_exceeded_iff :
      (now company_id limit : ℕ) (db : Db)
      → (effective_limits (get_plan company_id db)).monthly_agent_run_limit ≡ some limit
      → limit < 2000
      → ((get_quota_status platform now company_id db).runs_exceeded ≡ true)
        ↔ (limit ≤ runs_used_since company_id (platform.month_start now) db)
  unfolding get_quota_status
  runs_exceeded_iff now company_id limit db l small =
      let used = runs_used_since company_id (platform.month_start now) db in
      rw l (small_limit used limit small, λ h. reaches_near used limit (inr h))

  -- Rounding makes the check block early: in the last twentieth of a percent below the token
  -- limit a run is refused, though the limit is not used up.
  pub tokens_refused_early :
      (now company_id limit : ℕ) (db : Db)
      → (effective_limits (get_plan company_id db)).monthly_token_limit ≡ some limit
      → 2000 * limit < 2000 * tokens_used_since company_id (platform.month_start now) db + limit
      → tokens_used_since company_id (platform.month_start now) db < limit
      → (get_quota_status platform now company_id db).runs_exceeded ≡ false
      → assert_agent_run_allowed platform now company_id db ≡ err (http 429 tokens_exceeded)
  unfolding assert_agent_run_allowed
  tokens_refused_early now company_id limit db l near below runs =
      let used = tokens_used_since company_id (platform.month_start now) db in
      let full : reaches
            (pct platform used (effective_limits (get_plan company_id db)).monthly_token_limit) 1000
          ≡ true =
        rw l (reaches_near used limit (inl near)) in
      rw (runs, full)
