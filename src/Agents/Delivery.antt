-- ===== src/Agents/Delivery.antt =====
-- What a delivery of a message does to the run that it names.
use kaats_v.Base.{
  ℕ, ◌≡◌, refl, inl, inr, Bool, true, false, not, if◌then◌else◌, Option, none, some, ok, err,
  Result, arith, get, get-key, get-replace, Action, ◌>>=◌, ◌>>◌, modify, Option-cases, Bool-cases,
}
use kaats_v.Schema.{Db, AgentRun, AgentType, AgentRunStatus, InputConfig}
use kaats_v.Agents.{RunOrder, new_run, triggered_run, trigger, is_pending, put_run}
use kaats_v.Agents.Worker.{
  Agent, Times, started, outcome, update_scheduled_job, upsert_token_usage, report, execute,
  is_known, unknown_run, process_run, process_message,
}

abbrev Stored : ℕ → AgentRun → Db → Type 0
Stored i r db = get AgentRun.id i db.agent_runs ≡ some r

abbrev Keeps : {A : Type 0} → Action Db A → Type 0
Keeps m = (i : ℕ) (r : AgentRun) (db : Db) → Stored i r db → Stored i r (m db).1

keep_rest :
    {A B : Type 0} (q : Result A × Db) (f : A → Action Db B) (i : ℕ) (r : AgentRun)
    → ((x : A) → Keeps (f x))
    → Stored i r q.1
    → Stored i r (elim q.0 as (λ _. Result B × Db) [ ok a ↦ f a q.1 | err e ↦ (err e, q.1) ]).1
keep_rest (ok a, db) f i r k h = k a i r db h
keep_rest (err e, db) f i r k h = h

keep_bind :
    {A B : Type 0} (m : Action Db A) (f : A → Action Db B)
    → Keeps m
    → ((x : A) → Keeps (f x))
    → Keeps (m >>= f)
keep_bind m f km kf i r db h = keep_rest (m db) f i r kf (km i r db h)

update_scheduled_job-Keeps :
    (now : ℕ) (run : AgentRun) (job : Option ℕ) → Keeps (update_scheduled_job now run job)
unfolding update_scheduled_job
update_scheduled_job-Keeps now run none i r db h = h
update_scheduled_job-Keeps now run (some job) i r db h = ground arith

upsert_token_usage-Keeps :
    (today : ℕ) (t : AgentType) (run : AgentRun) → Keeps (upsert_token_usage today t run)
unfolding upsert_token_usage
upsert_token_usage-Keeps today t run i r db h = ground arith

report-Keeps :
    (a : Agent) (times : Times) (t : AgentType) (run : AgentRun) → Keeps (report a times t run)
unfolding report
report-Keeps a times t run =
    keep_bind (update_scheduled_job times.finish run run.scheduled_job_id)
      (λ _. upsert_token_usage times.today t run >> modify a.after)
      (update_scheduled_job-Keeps times.finish run run.scheduled_job_id)
      (λ _.
        keep_bind (upsert_token_usage times.today t run) (λ _. modify a.after)
          (upsert_token_usage-Keeps times.today t run) (λ _. a.after_keeps))

-- A run written back is stored.
put_run-Stored :
    (i : ℕ) (r s : AgentRun) (db : Db) → Stored i r db → s.id ≡ r.id → Stored i s (put_run s db)
unfolding put_run
put_run-Stored i r s db h e =
    let key : r.id ≡ i = get-key AgentRun.id i r db.agent_runs h in
    ground (arith, get-replace AgentRun.id i s r db.agent_runs)

execute-Stored :
    (a : Agent) (times : Times) (t : AgentType) (i : ℕ) (run : AgentRun) (db : Db)
    → a.ready ≡ true
    → a.built ≡ true
    → Stored i run db
    → Stored i (outcome a times run) (execute a times t run db).1
unfolding execute
execute-Stored a times t i run db ready built h =
    let h1 = put_run-Stored i run (started times.start run) db h refl in
    let h2 = a.work_keeps i (started times.start run) (put_run (started times.start run) db) h1 in
    let h3 =
      put_run-Stored i (started times.start run) (outcome a times run)
        (a.work (put_run (started times.start run) db)) h2 refl in
    let h4 = report-Keeps a times t (outcome a times run) i (outcome a times run) _ h3 in
    rw (ready, built) h4

execute-unbuilt :
    (a : Agent) (times : Times) (t : AgentType) (i : ℕ) (run : AgentRun) (db : Db)
    → a.ready ≡ true
    → a.built ≡ false
    → Stored i run db
    → Stored i (started times.start run) (execute a times t run db).1
unfolding execute
execute-unbuilt a times t i run db ready built h =
    rw (ready, built) (put_run-Stored i run (started times.start run) db h refl)

execute-not_ready :
    (a : Agent) (times : Times) (t : AgentType) (run : AgentRun) (db : Db)
    → a.ready ≡ false
    → (execute a times t run db).1 ≡ db
unfolding execute
execute-not_ready a times t run db ready = rw ready refl

-- The run after a delivery, for the lemmas below, in the words of the code; Agents.Fates states its
-- columns. Failed if no class has the agent type; pending still if the browser of the class does not
-- start; running still if its tools or executor are not built; else with the outcome of the run.
abbrev pub expected : Agent → Times → AgentType → AgentRun → AgentRun
expected a times t run =
    if not (is_known t)
    then unknown_run times.finish t run
    else if not a.ready
    then run
    else if not a.built
    then started times.start run
    else outcome a times run

expected-Stored :
    (a : Agent) (times : Times) (t : AgentType) (i : ℕ) (run : AgentRun) (db : Db)
    → Stored i run db
    → is_pending run.status ≡ true
    → Stored i (expected a times t run) (process_run a times t run db)
unfolding process_run
expected-Stored a times t i run db h p = elim (Bool-cases (is_known t)) [
  | inr k ↦ let e = put_run-Stored i run (unknown_run times.finish t run) db h refl in ground arith
  | inl k ↦ elim (Bool-cases a.ready) [
    | inr r ↦ ground (arith, execute-not_ready a times t run db r)
    | inl r ↦ elim (Bool-cases a.built) [
      | inr b ↦ let e = execute-unbuilt a times t i run db r b h in ground arith
      | inl b ↦ let e = execute-Stored a times t i run db r b h in ground arith
    ]
  ]
]

abbrev pub is_final : AgentRunStatus → Bool
is_final AgentRunStatus.completed = true
is_final AgentRunStatus.failed = true
is_final AgentRunStatus.timed_out = true
is_final _ = false

-- A delivery for a stored, pending run leaves it as `expected` says: failed if no class has the
-- agent type; pending as before if the browser of the class does not start; running if its tools
-- or its executor are not built; else with the status, summary, tokens and cost of its ending.
pub process_message-expected :
    (a : Agent) (times : Times) (t : AgentType) (i : ℕ) (run : AgentRun) (db : Db)
    → get AgentRun.id i db.agent_runs ≡ some run
    → is_pending run.status ≡ true
    → get AgentRun.id i (process_message a times (some i) t db).agent_runs
      ≡ some (expected a times t run)
unfolding process_message
process_message-expected a times t i run db h p = rw h (expected-Stored a times t i run db h p)

outcome_final :
    (a : Agent) (times : Times) (run : AgentRun) → is_final (outcome a times run).status ≡ true
outcome_final a times run = ground arith

-- If the browser starts and the tools and the executor are built, then a delivery brings a pending
-- run to its end: completed, failed or timed out, with the time of the end.
pub process_message-is_final :
    (a : Agent) (times : Times) (t : AgentType) (i : ℕ) (run : AgentRun) (db : Db)
    → get AgentRun.id i db.agent_runs ≡ some run
    → is_pending run.status ≡ true
    → a.ready ≡ true
    → a.built ≡ true
    → (r : AgentRun) × (get AgentRun.id i (process_message a times (some i) t db).agent_runs
        ≡ some r)
      × (is_final r.status ≡ true)
      × (r.completed_at ≡ some times.finish)
process_message-is_final a times t i run db h p ready built = (
  expected a times t run,
  process_message-expected a times t i run db h p,
  ground arith,
  ground arith,
)

-- A message for a run that is not pending changes nothing, whatever the message says.
process_message-not_pending :
    (a : Agent) (times : Times) (t : AgentType) (i : ℕ) (run : AgentRun) (db : Db)
    → get AgentRun.id i db.agent_runs ≡ some run
    → is_pending run.status ≡ false
    → process_message a times (some i) t db ≡ db
unfolding process_message process_run
process_message-not_pending a times t i run db h p = rw (h, p) refl

process_message-missing :
    (a : Agent) (times : Times) (t : AgentType) (i : ℕ) (db : Db)
    → get AgentRun.id i db.agent_runs ≡ none
    → process_message a times (some i) t db ≡ db
unfolding process_message
process_message-missing a times t i db h = rw h refl

expected-not_pending :
    (a : Agent) (times : Times) (t : AgentType) (run : AgentRun)
    → a.ready ≡ true
    → is_pending (expected a times t run).status ≡ false
expected-not_pending a times t run ready = ground arith

-- The bus may deliver a message again: if the browser of the class starts at the first delivery,
-- a second delivery for the same run changes nothing, whatever agent it meets and however the
-- first one ended.
pub process_message-redelivery :
    (a b : Agent) (times later : Times) (t u : AgentType) (i : ℕ) (db : Db)
    → a.ready ≡ true
    → process_message b later (some i) u (process_message a times (some i) t db)
      ≡ process_message a times (some i) t db
process_message-redelivery a b times later t u i db ready =
    elim (Option-cases (get AgentRun.id i db.agent_runs)) [
      | inl e ↦
          rw (process_message-missing a times t i db e) (process_message-missing b later u i db e)
      | inr (run, e) ↦ elim (Bool-cases (is_pending run.status)) [
        | inr p ↦
            rw (process_message-not_pending a times t i run db e p)
              (process_message-not_pending b later u i run db e p)
        | inl p ↦
            process_message-not_pending b later u i (expected a times t run)
              (process_message a times (some i) t db)
              (process_message-expected a times t i run db e p)
              (expected-not_pending a times t run ready)
      ]
    ]

-- A run that AgentRunService.trigger made is running from the start, so the worker skips its
-- message: the rows stay as `trigger` left them.
pub trigger-skipped :
    (now : ℕ) (t : AgentType) (order : RunOrder) (config : InputConfig) (a : Agent) (times : Times)
    (db : Db)
    → let db' = (trigger now t order config true db).1 in
      process_message a times (some db.next_id) t db' ≡ db'
unfolding trigger new_run get
trigger-skipped now t order config a times db =
    let db' = (trigger now t order config true db).1 in
    process_message-not_pending a times t db.next_id (triggered_run db.next_id now t order config)
      db' (ground arith) refl
