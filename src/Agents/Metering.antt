-- ===== src/Agents/Metering.antt =====
-- Token metering: what a run adds to the usage of its company.
use kaats_v.Base.{
  ℕ, suc, ◌+◌, ◌≤◌, ◌≡◌, refl, ◌⊎◌, inl, inr, ◌==◌, Bool, true, false, Option, none, some, List, [],
  ◌∷◌, ok, err, Result, arith, count, select, length, length-select, Bool-cases, one_or_none,
  ==_refl,
}
use text.Mathlib.TextEquality.{eq_iff}
use kaats_v.Schema.{Db, AgentRun, AgentType, CompanyTokenUsage, other_agent}
use kaats_v.Quota.{sum_where, in_period, tokens_used_since}
use kaats_v.Agents.Worker.{
  same_agent, is_usage, add_usage, add_where, store_usage, upsert_token_usage,
}

-- Adding to the one row that fits adds to a sum that counts it.
module _ (p q : CompanyTokenUsage → Bool) (f : CompanyTokenUsage → CompanyTokenUsage)
    (g : CompanyTokenUsage → ℕ) (n : ℕ)
    (counted : (u : CompanyTokenUsage) → p u ≡ true → (q u ≡ true) × (q (f u) ≡ true))
    (grows : (u : CompanyTokenUsage) → g (f u) ≡ g u + n) where
  sum-add_none :
      (us : List CompanyTokenUsage)
      → count p us ≡ 0
      → sum_where q g (add_where p f us) ≡ sum_where q g us
  unfolding sum_where add_where count
  sum-add_none [] h = refl
  sum-add_none (u ∷ us) h = ground (arith, sum-add_none us)

  sum-add_one :
      (us : List CompanyTokenUsage)
      → count p us ≡ 1
      → sum_where q g (add_where p f us) ≡ sum_where q g us + n
  unfolding sum_where add_where count
  sum-add_one [] h = absurd (omega arith)
  sum-add_one (u ∷ us) h = elim (Bool-cases (p u)) [
    | inl e ↦ let (a, b) = counted u e in ground (arith, grows u, sum-add_none us)
    | inr e ↦ ground (arith, sum-add_one us)
  ]

-- Where a count is not touched, since no counted row fits.
sum-add_other :
    (p q : CompanyTokenUsage → Bool) (f : CompanyTokenUsage → CompanyTokenUsage)
    (g : CompanyTokenUsage → ℕ)
    → ((u : CompanyTokenUsage) → p u ≡ true → (q u ≡ false) × (q (f u) ≡ false))
    → (us : List CompanyTokenUsage) → sum_where q g (add_where p f us) ≡ sum_where q g us
unfolding sum_where add_where
sum-add_other p q f g outside [] = refl
sum-add_other p q f g outside (u ∷ us) = elim (Bool-cases (p u)) [
  | inl e ↦ let (a, b) = outside u e in ground (arith, sum-add_other p q f g outside us)
  | inr e ↦ ground (arith, sum-add_other p q f g outside us)
]

-- How many rows the metering query finds.
abbrev pub usage_rows : AgentRun → AgentType → ℕ → Db → ℕ
usage_rows run t today db = count (is_usage run t today) db.token_usage

found_cases :
    (us : List CompanyTokenUsage)
    → length us ≤ 1
    → ((one_or_none us ≡ ok none) × (length us ≡ 0))
      ⊎ ((u : CompanyTokenUsage) × (one_or_none us ≡ ok (some u)) × (length us ≡ 1))
found_cases [] h = inl (refl, refl)
found_cases (u ∷ []) h = inr (u, refl, refl)
found_cases (u ∷ v ∷ us) h = absurd (omega arith)

query_cases :
    (run : AgentRun) (t : AgentType) (today : ℕ) (db : Db)
    → usage_rows run t today db ≤ 1
    → (o : Option CompanyTokenUsage) × (one_or_none (select (is_usage run t today) db.token_usage)
        ≡ ok o)
      × (((o ≡ none) × (usage_rows run t today db ≡ 0))
          ⊎ ((u : CompanyTokenUsage) × (o ≡ some u) × (usage_rows run t today db ≡ 1)))
query_cases run t today db h =
    let same = length-select (is_usage run t today) db.token_usage in
    elim (found_cases (select (is_usage run t today) db.token_usage) (omega (arith, same))) [
      | inl (e, z) ↦ (none, e, inl (refl, omega (arith, same)))
      | inr (u, e, z) ↦ (some u, e, inr (u, refl, omega (arith, same)))
    ]

same_agent_refl : (t : AgentType) → same_agent t t ≡ true
unfolding same_agent
same_agent_refl AgentType.crawl = refl
same_agent_refl AgentType.generation = refl
same_agent_refl AgentType.execution = refl
same_agent_refl (other_agent s) = (eq_iff s s).1 refl

usage-in_period :
    (run : AgentRun) (t : AgentType) (today start : ℕ)
    → start ≤ today
    → (u : CompanyTokenUsage) → is_usage run t today u ≡ true
    → (in_period run.company_id start u ≡ true)
      × (in_period run.company_id start (add_usage run u) ≡ true)
usage-in_period run t today start h u e = ground arith

upsert_none :
    (today : ℕ) (t : AgentType) (run : AgentRun) (start : ℕ) (db : Db)
    → start ≤ today
    → tokens_used_since run.company_id start (store_usage run t today none db)
      ≡ tokens_used_since run.company_id start db + (run.prompt_tokens + run.completion_tokens)
unfolding tokens_used_since sum_where
upsert_none today t run start db h = ground arith

upsert_some :
    (today : ℕ) (t : AgentType) (run : AgentRun) (start : ℕ) (u : CompanyTokenUsage) (db : Db)
    → start ≤ today
    → usage_rows run t today db ≡ 1
    → tokens_used_since run.company_id start (store_usage run t today (some u) db)
      ≡ tokens_used_since run.company_id start db + (run.prompt_tokens + run.completion_tokens)
unfolding tokens_used_since
upsert_some today t run start u db h one =
    let fits = usage-in_period run t today start h in
    let prompt =
      sum-add_one (is_usage run t today) (in_period run.company_id start) (add_usage run)
        CompanyTokenUsage.prompt_tokens run.prompt_tokens fits (λ u. refl) db.token_usage one in
    let completion =
      sum-add_one (is_usage run t today) (in_period run.company_id start) (add_usage run)
        CompanyTokenUsage.completion_tokens run.completion_tokens fits (λ u. refl) db.token_usage
        one in
    omega (arith, prompt, completion)

-- Where the company has at most one usage row for the agent and the day, metering succeeds, and
-- the use of the company since any time up to that day, as the quota check sums it up, grows by
-- the tokens of the run.
pub upsert_token_usage-tokens_used_since :
    (today : ℕ) (t : AgentType) (run : AgentRun) (start : ℕ) (db : Db)
    → usage_rows run t today db ≤ 1
    → start ≤ today
    → ((upsert_token_usage today t run db).0 ≡ ok tt)
      × (tokens_used_since run.company_id start (upsert_token_usage today t run db).1
          ≡ tokens_used_since run.company_id start db + (run.prompt_tokens + run.completion_tokens))
unfolding upsert_token_usage
upsert_token_usage-tokens_used_since today t run start db few h =
    let (o, e, c) = query_cases run t today db few in
    elim c [
      | inl (n, z) ↦ rw (e, n) (refl, upsert_none today t run start db h)
      | inr (u, n, one) ↦ rw (e, n) (refl, upsert_some today t run start u db h one)
    ]

count-add_where :
    (run : AgentRun) (t : AgentType) (today : ℕ) (us : List CompanyTokenUsage)
    → count (is_usage run t today) (add_where (is_usage run t today) (add_usage run) us)
      ≡ count (is_usage run t today) us
unfolding count add_where
count-add_where run t today [] = refl
count-add_where run t today (u ∷ us) = elim (Bool-cases (is_usage run t today u)) [
  | inl e ↦ ground (arith, count-add_where run t today us)
  | inr e ↦ ground (arith, count-add_where run t today us)
]

one_more :
    (run : AgentRun) (t : AgentType) (today : ℕ) (db : Db)
    → usage_rows run t today (store_usage run t today none db) ≡ suc (usage_rows run t today db)
unfolding count
one_more run t today db = ground (arith, same_agent_refl t, ==_refl run.company_id, ==_refl today)

-- Metering keeps the rows unique: from at most one row for the company, the agent and the day it
-- gets to exactly one.
pub upsert_token_usage_unique :
    (today : ℕ) (t : AgentType) (run : AgentRun) (db : Db)
    → usage_rows run t today db ≤ 1
    → usage_rows run t today (upsert_token_usage today t run db).1 ≡ 1
unfolding upsert_token_usage
upsert_token_usage_unique today t run db few =
    let (o, e, c) = query_cases run t today db few in
    elim c [
      | inl (n, z) ↦ rw (e, n) (omega (arith, one_more run t today db))
      | inr (u, n, one) ↦ rw (e, n) (omega (arith, count-add_where run t today db.token_usage))
    ]

usage-out_of_period :
    (run : AgentRun) (t : AgentType) (today company start : ℕ)
    → (run.company_id == company) ≡ false
    → (u : CompanyTokenUsage) → is_usage run t today u ≡ true
    → (in_period company start u ≡ false) × (in_period company start (add_usage run u) ≡ false)
usage-out_of_period run t today company start h u e = ground arith

stored_elsewhere :
    (today : ℕ) (t : AgentType) (run : AgentRun) (company start : ℕ) (o : Option CompanyTokenUsage)
    (db : Db)
    → (run.company_id == company) ≡ false
    → tokens_used_since company start (store_usage run t today o db)
      ≡ tokens_used_since company start db
unfolding tokens_used_since sum_where
stored_elsewhere today t run company start none db h = ground arith
stored_elsewhere today t run company start (some u) db h =
    let outside = usage-out_of_period run t today company start h in
    let prompt =
      sum-add_other (is_usage run t today) (in_period company start) (add_usage run)
        CompanyTokenUsage.prompt_tokens outside db.token_usage in
    let completion =
      sum-add_other (is_usage run t today) (in_period company start) (add_usage run)
        CompanyTokenUsage.completion_tokens outside db.token_usage in
    omega (arith, prompt, completion)

-- Metering a run leaves the use of every other company as it is, also where it raises because the
-- query finds several rows.
pub upsert_token_usage-elsewhere :
    (today : ℕ) (t : AgentType) (run : AgentRun) (company start : ℕ) (db : Db)
    → (run.company_id == company) ≡ false
    → tokens_used_since company start (upsert_token_usage today t run db).1
      ≡ tokens_used_since company start db
unfolding upsert_token_usage
upsert_token_usage-elsewhere today t run company start db h =
    by_query (one_or_none (select (is_usage run t today) db.token_usage)) refl
  where
    by_query :
        (q : Result (Option CompanyTokenUsage))
        → one_or_none (select (is_usage run t today) db.token_usage) ≡ q
        → tokens_used_since company start (upsert_token_usage today t run db).1
          ≡ tokens_used_since company start db
    by_query (ok o) e = rw e (stored_elsewhere today t run company start o db h)
    by_query (err x) e = rw e refl
