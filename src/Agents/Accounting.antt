-- ===== src/Agents/Accounting.antt =====
-- From the delivery of a message to the use that the quota check sums up.
use kaats_v.Base.{ℕ, ◌+◌, ◌≤◌, ◌≡◌, refl, ap, ◌∙◌, true, none, some, ok, arith, get}
use kaats_v.Schema.{Db, AgentRun, AgentType}
use kaats_v.Quota.{tokens_used_since}
use kaats_v.Agents.{is_pending, put_run}
use kaats_v.Agents.Worker.{
  Agent, Times, started, outcome, update_scheduled_job, upsert_token_usage, report, execute,
  is_known, process_run, process_message,
}
use kaats_v.Agents.Metering.{usage_rows, upsert_token_usage-tokens_used_since}

-- The use of a company is read from the usage rows alone.
tokens_by_rows :
    (company start : ℕ) (d e : Db)
    → d.token_usage ≡ e.token_usage
    → tokens_used_since company start d ≡ tokens_used_since company start e
unfolding tokens_used_since
tokens_by_rows company start d e h = rw h refl

rows_by_rows :
    (run : AgentRun) (t : AgentType) (today : ℕ) (d e : Db)
    → d.token_usage ≡ e.token_usage
    → usage_rows run t today d ≡ usage_rows run t today e
rows_by_rows run t today d e h = rw h refl

-- The rows on which `execute` starts to report.
abbrev before_report : Agent → Times → AgentRun → Db → Db
before_report a times run db =
    put_run (outcome a times run) (a.work (put_run (started times.start run) db))

before_report-usage :
    (a : Agent) (times : Times) (run : AgentRun) (db : Db)
    → (before_report a times run db).token_usage ≡ db.token_usage
unfolding put_run
before_report-usage a times run db = a.work_usage (put_run (started times.start run) db)

report_rows :
    (a : Agent) (times : Times) (t : AgentType) (run : AgentRun) (db : Db)
    → run.scheduled_job_id ≡ none
    → (upsert_token_usage times.today t run db).0 ≡ ok tt
    → (report a times t run db).1 ≡ a.after (upsert_token_usage times.today t run db).1
unfolding report update_scheduled_job
report_rows a times t run db manual done = ground arith

report-tokens :
    (a : Agent) (times : Times) (t : AgentType) (run : AgentRun) (start : ℕ) (db : Db)
    → run.scheduled_job_id ≡ none
    → usage_rows run t times.today db ≤ 1
    → start ≤ times.today
    → tokens_used_since run.company_id start (report a times t run db).1
      ≡ tokens_used_since run.company_id start db + (run.prompt_tokens + run.completion_tokens)
report-tokens a times t run start db manual few h =
    let (done, total) = upsert_token_usage-tokens_used_since times.today t run start db few h in
    let db' = (upsert_token_usage times.today t run db).1 in
    rw (report_rows a times t run db manual done)
      (tokens_by_rows run.company_id start (a.after db') db' (a.after_usage db') ∙ total)

execute_rows :
    (a : Agent) (times : Times) (t : AgentType) (run : AgentRun) (db : Db)
    → a.ready ≡ true
    → a.built ≡ true
    → (execute a times t run db).1
      ≡ (report a times t (outcome a times run) (before_report a times run db)).1
unfolding execute
execute_rows a times t run db ready built = ground arith

process_message_rows :
    (a : Agent) (times : Times) (t : AgentType) (i : ℕ) (run : AgentRun) (db : Db)
    → get AgentRun.id i db.agent_runs ≡ some run
    → is_pending run.status ≡ true
    → is_known t ≡ true
    → process_message a times (some i) t db ≡ (execute a times t run db).1
unfolding process_message process_run
process_message_rows a times t i run db stored pending known = ground arith

-- A delivery that runs the agent of a pending, manual run adds to the use of its company, since
-- any time up to the day of the run's end, the tokens that the model reported, if the company has
-- at most one usage row for the agent and the day.
pub process_message-tokens :
    (a : Agent) (times : Times) (t : AgentType) (i : ℕ) (run : AgentRun) (start : ℕ) (db : Db)
    → get AgentRun.id i db.agent_runs ≡ some run
    → is_pending run.status ≡ true
    → run.scheduled_job_id ≡ none
    → is_known t ≡ true
    → a.ready ≡ true
    → a.built ≡ true
    → usage_rows run t times.today db ≤ 1
    → start ≤ times.today
    → tokens_used_since run.company_id start (process_message a times (some i) t db)
      ≡ tokens_used_since run.company_id start db + (a.prompt_tokens + a.completion_tokens)
process_message-tokens a times t i run start db stored pending manual known ready built few h =
    let db' = before_report a times run db in
    let same = before_report-usage a times run db in
    let few' : usage_rows run t times.today db' ≤ 1 =
      rw (rows_by_rows run t times.today db' db same) few in
    rw
      (
        process_message_rows a times t i run db stored pending known,
        execute_rows a times t run db ready built,
      )
      (report-tokens a times t (outcome a times run) start db' manual few' h
        ∙ ap (λ n. n + (a.prompt_tokens + a.completion_tokens))
            (tokens_by_rows run.company_id start db' db same))
