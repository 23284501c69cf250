-- ===== src/Tests/Agents.antt =====
-- Agent runs on a few rows.
use kaats_v.Base.{ℕ, ◌+◌, ◌≤◌, ◌≡◌, refl, true, false, none, some, [], ◌∷◌, arith, get, count}
use kaats_v.Schema.{Db, AgentRun, AgentType, InputConfig, execution_config}
use kaats_v.Quota.{new_plan, get_plan, effective_limits, runs_used_since, tokens_used_since}
use kaats_v.Agents.{RunOrder, new_run}
use kaats_v.Agents.Worker.{Agent, Ending, Times, outcome, process_message}
use kaats_v.Agents.Admission.{Dispatch, dispatch_each, dispatch_each-within_limit}
use kaats_v.Agents.Delivery.{process_message-redelivery}
use kaats_v.Agents.Accounting.{process_message-tokens}
use kaats_v.Tests.Data.{platform, two_companies}

abbrev three_runs : Db
three_runs = record two_companies {
  plans = record (new_plan 20) { monthly_agent_run_limit = some 3 } ∷ [];
}

abbrev by_hand : RunOrder
by_hand = record {
  company_id = 20;
  system_id = some 30;
  triggered_by_user_id = some 2;
  scheduled_job_id = none;
}

abbrev run_script : InputConfig
run_script = execution_config 40

abbrev pending_run : AgentRun
pending_run = new_run 60 40 AgentType.execution by_hand run_script

abbrev one_pending : Db
one_pending = record three_runs { agent_runs = pending_run ∷ [] }

abbrev works : Agent
works = record {
  ready = true;
  built = true;
  ending = Ending.finished "all passed";
  prompt_tokens = 100;
  completion_tokens = 20;
  work = λ db. db;
  after = λ db. db;
  work_keeps = λ i r db h. h;
  after_keeps = λ i r db h. h;
  work_usage = λ db. refl;
  after_usage = λ db. refl;
}

abbrev no_tools : Agent
no_tools = record works { built = false }

abbrev times : Times
times = record { start = 41; finish = 43; today = 42 }

abbrev done : AgentRun
done = outcome works times pending_run

abbrev at : ℕ → Dispatch platform
at now = record {
  now = now;
  agent_type = AgentType.execution;
  order = by_hand;
  config = run_script;
}

dispatch_each-within_limit_example :
    runs_used_since 20 30 (dispatch_each platform (at 40 ∷ at 41 ∷ at 42 ∷ at 43 ∷ []) three_runs)
    ≤ 3
unfolding get_plan effective_limits get runs_used_since count
dispatch_each-within_limit_example =
    dispatch_each-within_limit platform (at 40 ∷ at 41 ∷ at 42 ∷ at 43 ∷ []) 30 three_runs 20 3
      ((refl, refl), ((refl, refl), ((refl, refl), ((refl, refl), tt)))) refl (omega arith)

process_message-redelivery_example :
    process_message works times
      (some 60)
      AgentType.crawl
      (process_message no_tools times (some 60) AgentType.execution one_pending)
    ≡ process_message no_tools times (some 60) AgentType.execution one_pending
process_message-redelivery_example =
    process_message-redelivery no_tools works times times AgentType.execution AgentType.crawl 60
      one_pending refl

process_message-tokens_example :
    tokens_used_since 20 30 (process_message works times (some 60) AgentType.execution one_pending)
    ≡ tokens_used_since 20 30 one_pending + 120
unfolding get new_run count
process_message-tokens_example =
    process_message-tokens works times AgentType.execution 60 pending_run 30 one_pending refl refl
      refl refl refl refl (omega arith) (omega arith)
