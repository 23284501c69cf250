-- ===== src/Agents/Worker.antt =====
-- The worker: `_process_message` of backend/app/worker/service_bus_worker.py and `execute` of
-- backend/app/agents/base.py with the feedback to the scheduled job and the token metering. The
-- session is committed on every path, so the rows that a path leaves are the rows that stay.
use kaats_v.Base.{
  ℕ, ◌+◌, ◌*◌, Bool, true, false, ◌&&◌, not, Option, none, some, List, [], ◌∷◌, String, ◌==◌,
  if◌then◌else◌, opt_is, select, get, replace, update, ◌≡◌, other_exception, one_or_none, Action,
  pure, lift, gets, raise_if, modify, ◌>>=◌, ◌>>◌,
}
use kaats_v.Schema.{
  Db, AgentRun, AgentType, AgentRunStatus, CompanyTokenUsage, ScheduledJob, ScheduledJobRun,
  ScheduledJobRunStatus, LastRunStatus, other_agent,
}
use kaats_v.Agents.{is_pending, put_run}
use Prim.Native.String.{◌++◌ as str_append}
use text.Mathlib.Text.{◌==◌ as str_eq}

-- How `run_agent` ends: with its summary, by the wall clock, or with an exception, whose text is
-- cut at 1000 characters.
pub data Ending : Type 0 where
  finished : String → Ending
  out_of_time : Ending
  crashed : String → Ending

-- What the worker takes from an agent class: whether its browser starts, whether its tools, prompt
-- and executor are built, how its run ends, the tokens that the model reports, and the rows that
-- it writes during the run and in what its `execute` does after the shared one. None of these
-- changes a run that is stored or the token usage.
pub record Agent : Type 0 where
  pub ready : Bool
  pub built : Bool
  pub ending : Ending
  pub prompt_tokens : ℕ
  pub completion_tokens : ℕ
  pub work : Db → Db
  pub after : Db → Db
  pub work_keeps :
      (i : ℕ) (r : AgentRun) (db : Db)
      → get AgentRun.id i db.agent_runs ≡ some r
      → get AgentRun.id i (work db).agent_runs ≡ some r
  pub after_keeps :
      (i : ℕ) (r : AgentRun) (db : Db)
      → get AgentRun.id i db.agent_runs ≡ some r
      → get AgentRun.id i (after db).agent_runs ≡ some r
  pub work_usage : (db : Db) → (work db).token_usage ≡ db.token_usage
  pub after_usage : (db : Db) → (after db).token_usage ≡ db.token_usage

-- The text columns of two rows hold the same agent type.
unfoldable pub same_agent : AgentType → AgentType → Bool
same_agent AgentType.crawl AgentType.crawl = true
same_agent AgentType.generation AgentType.generation = true
same_agent AgentType.execution AgentType.execution = true
same_agent (other_agent s) (other_agent t) = str_eq s t
same_agent _ _ = false

abbrev pub status_of : Ending → AgentRunStatus
status_of (Ending.finished summary) = AgentRunStatus.completed
status_of Ending.out_of_time = AgentRunStatus.timed_out
status_of (Ending.crashed text) = AgentRunStatus.failed

abbrev pub summary_of : Ending → Option String → Option String
summary_of (Ending.finished summary) old = some summary
summary_of _ old = old

abbrev pub message_of : Ending → Option String → Option String
message_of (Ending.finished summary) old = old
message_of Ending.out_of_time old = some "Wall-clock timeout exceeded"
message_of (Ending.crashed text) old = some text

abbrev pub started : ℕ → AgentRun → AgentRun
started now run = record run { status = AgentRunStatus.running; started_at = some now }

-- `_PROMPT_TOKEN_COST` and `_COMPLETION_TOKEN_COST`, in millionths of a dollar.
abbrev pub token_cost : ℕ → ℕ → ℕ
token_cost prompt completion = prompt * 5 + completion * 15

-- The run with its outcome, tokens, cost and end.
abbrev pub ended : Agent → ℕ → AgentRun → AgentRun
ended a now run = record run {
  status = status_of a.ending;
  output_summary = summary_of a.ending run.output_summary;
  error_message = message_of a.ending run.error_message;
  completed_at = some now;
  prompt_tokens = a.prompt_tokens;
  completion_tokens = a.completion_tokens;
  total_cost_usd = some (token_cost a.prompt_tokens a.completion_tokens);
}

abbrev pub is_completed : AgentRunStatus → Bool
is_completed AgentRunStatus.completed = true
is_completed _ = false

abbrev pub job_run_status : AgentRunStatus → ScheduledJobRunStatus
job_run_status s =
    if is_completed s then ScheduledJobRunStatus.completed else ScheduledJobRunStatus.failed

abbrev pub last_run_status_of : AgentRunStatus → LastRunStatus
last_run_status_of s = if is_completed s then LastRunStatus.success else LastRunStatus.failed

abbrev pub put_job_run : Option ScheduledJobRun → ℕ → AgentRunStatus → Db → Db
put_job_run none now s db = db
put_job_run (some r) now s db = record db {
  job_runs =
      replace ScheduledJobRun.id (record r { status = job_run_status s; completed_at = some now })
        db.job_runs;
}

unfoldable pub update_scheduled_job : ℕ → AgentRun → Option ℕ → Action Db (Unit {0})
update_scheduled_job now run none = pure tt
update_scheduled_job now run (some job_id) = do
  found ← gets (λ db. one_or_none (select (λ r. opt_is r.agent_run_id run.id) db.job_runs))
  job_run ← lift found
  modify (put_job_run job_run now run.status)
  modify (λ db. record db {
    jobs =
        update ScheduledJob.id job_id
          (λ job. record job { last_run_status = some (last_run_status_of run.status) }) db.jobs;
  })

-- The row of the company, the agent type and the day.
abbrev pub is_usage : AgentRun → AgentType → ℕ → CompanyTokenUsage → Bool
is_usage run t today u =
    (u.company_id == run.company_id) && (same_agent u.agent_type t && (u.usage_date == today))

abbrev pub add_cost : Option ℕ → Option ℕ → Option ℕ
add_cost none new = new
add_cost (some old) none = some old
add_cost (some old) (some new) = some (old + new)

-- The tokens and the cost of the run added to a usage row.
abbrev pub add_usage : AgentRun → CompanyTokenUsage → CompanyTokenUsage
add_usage run u = record u {
  prompt_tokens = u.prompt_tokens + run.prompt_tokens;
  completion_tokens = u.completion_tokens + run.completion_tokens;
  total_cost_usd = add_cost u.total_cost_usd run.total_cost_usd;
}

abbrev pub new_usage : ℕ → AgentRun → AgentType → ℕ → CompanyTokenUsage
new_usage id run t today = record {
  id = id;
  company_id = run.company_id;
  agent_type = t;
  usage_date = today;
  prompt_tokens = 0;
  completion_tokens = 0;
  total_cost_usd = none;
}

-- The row that the query found is the only one that fits it, so adding to it is adding to every
-- row that fits.
unfoldable pub add_where :
    (CompanyTokenUsage → Bool)
    → (CompanyTokenUsage → CompanyTokenUsage)
    → List CompanyTokenUsage
    → List CompanyTokenUsage
add_where p f [] = []
add_where p f (u ∷ us) = if p u then f u ∷ add_where p f us else u ∷ add_where p f us

abbrev pub store_usage : AgentRun → AgentType → ℕ → Option CompanyTokenUsage → Db → Db
store_usage run t today none db = record db {
  token_usage = add_usage run (new_usage db.next_id run t today) ∷ db.token_usage;
  next_id = db.next_id + 1;
}
store_usage run t today (some u) db = record db {
  token_usage = add_where (is_usage run t today) (add_usage run) db.token_usage;
}

unfoldable pub upsert_token_usage : ℕ → AgentType → AgentRun → Action Db (Unit {0})
unfolding add_where
upsert_token_usage today t run = do
  found ← gets (λ (db : Db). one_or_none (select (is_usage run t today) db.token_usage))
  usage ← lift found
  modify (store_usage run t today usage)

-- The points in time of one delivery: start and end of the run, and the midnight before the end.
pub record Times : Type 0 where
  pub start : ℕ
  pub finish : ℕ
  pub today : ℕ

-- The run as `execute` persists it at the end.
abbrev pub outcome : Agent → Times → AgentRun → AgentRun
outcome a times run = ended a times.finish (started times.start run)

-- What follows in `execute` once the run is persisted, and in the `execute` of the class.
unfoldable pub report : Agent → Times → AgentType → AgentRun → Action Db (Unit {0})
unfolding update_scheduled_job upsert_token_usage
report a times t run = do
  update_scheduled_job times.finish run run.scheduled_job_id
  upsert_token_usage times.today t run
  modify a.after

-- `execute` of an agent class around BaseAgent.execute.
unfoldable pub execute : Agent → Times → AgentType → AgentRun → Action Db (Unit {0})
unfolding put_run report
execute a times t run = do
  raise_if (not a.ready) other_exception
  modify (put_run (started times.start run))
  raise_if (not a.built) other_exception
  modify a.work
  modify (put_run (outcome a times run))
  report a times t (outcome a times run)

-- `_build_agent`: the class of an agent type, or ValueError.
abbrev pub is_known : AgentType → Bool
is_known (other_agent s) = false
is_known _ = true

-- `f"Unknown agent type: {agent_type!r}"`
abbrev pub unknown_text : AgentType → String
unknown_text (other_agent s) = str_append "Unknown agent type: '" (str_append s "'")
unknown_text _ = ""

abbrev pub unknown_run : ℕ → AgentType → AgentRun → AgentRun
unknown_run now t run = record run {
  status = AgentRunStatus.failed;
  error_message = some (unknown_text t);
  completed_at = some now;
}

-- The branches of `_process_message` on a run that was found.
unfoldable pub process_run : Agent → Times → AgentType → AgentRun → Db → Db
process_run a times t run db =
    if not (is_pending run.status)
    then db
    else if not (is_known t)
    then put_run (unknown_run times.finish t run) db
    else (execute a times t run db).1

-- A run that is not found is skipped.
abbrev pub process_found : Agent → Times → AgentType → Option AgentRun → Db → Db
process_found a times t none db = db
process_found a times t (some run) db = process_run a times t run db

-- `_process_message`, where the id is missing also if it is no UUID.
unfoldable pub process_message : Agent → Times → Option ℕ → AgentType → Db → Db
process_message a times none t db = db
process_message a times (some run_id) t db =
    process_found a times t (get AgentRun.id run_id db.agent_runs) db
