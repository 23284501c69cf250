-- ===== src/Reports/Usage.antt =====
-- The reports on the use of agents: `token_usage`, `execution_history` and `ai_usage` of
-- backend/app/services/report_service.py.
use kaats_v.Base.{
  ℕ, ◌+◌, ◌≡◌, refl, Bool, true, ◌&&◌, Option, none, some, List, [], ◌∷◌, String, arith, leb, ◌==◌,
  if◌then◌else◌, opt_is, select,
}
use kaats_v.Schema.{Db, AgentRun, AgentType, CompanyTokenUsage}
use kaats_v.Agents.Worker.{same_agent}
use kaats_v.Systems.Views.{is_execution}
use kaats_v.Search.{latest_first, take}

abbrev pub agent_is : Option AgentType → AgentType → Bool
agent_is none t = true
agent_is (some a) t = same_agent t a

-- The dates are not asked for, and neither is the company.
unfoldable pub token_usage :
    Option AgentType → Option String → Option String → Db → List CompanyTokenUsage
token_usage agent_type date_from date_to db =
    select (λ (u : CompanyTokenUsage). agent_is agent_type u.agent_type) db.token_usage

-- `since` is the point in time `days` days ago.
abbrev pub recent_execution : ℕ → ℕ → AgentRun → Bool
recent_execution system_id since r =
    opt_is r.system_id system_id && (is_execution r.agent_type && leb since r.created_at)

unfoldable pub execution_history : ℕ → ℕ → ℕ → Db → List AgentRun
execution_history system_id limit since db =
    take limit (latest_first (select (recent_execution system_id since) db.agent_runs))

abbrev pub from_is : Option ℕ → ℕ → Bool
from_is none t = true
from_is (some d) t = leb d t

abbrev pub to_is : Option ℕ → ℕ → Bool
to_is none t = true
to_is (some d) t = leb t d

abbrev pub counted_run : ℕ → Option ℕ → Option ℕ → Option AgentType → AgentRun → Bool
counted_run company_id date_from date_to agent_type r =
    (r.company_id == company_id)
    && (agent_is agent_type r.agent_type
        && (from_is date_from r.created_at && to_is date_to r.created_at))

-- A row of the grouped query; `day` is the whole `created_at`, since the cast keeps its type.
pub record UsageRow : Type 0 where
  pub agent_type : AgentType
  pub day : ℕ
  pub prompt_tokens : ℕ
  pub completion_tokens : ℕ

abbrev pub row_of : AgentRun → UsageRow
row_of r = record {
  agent_type = r.agent_type;
  day = r.created_at;
  prompt_tokens = r.prompt_tokens;
  completion_tokens = r.completion_tokens;
}

abbrev pub in_group : AgentRun → UsageRow → Bool
in_group r x = same_agent r.agent_type x.agent_type && (r.created_at == x.day)

unfoldable pub group_run : AgentRun → List UsageRow → List UsageRow
group_run r [] = row_of r ∷ []
group_run r (x ∷ xs) =
    let rest = group_run r xs in
    if in_group r x
    then record x {
      prompt_tokens = x.prompt_tokens + r.prompt_tokens;
      completion_tokens = x.completion_tokens + r.completion_tokens;
    }
      ∷ xs
    else x ∷ rest

-- `GROUP BY`; the order of the groups is left open.
unfoldable pub group_runs : List AgentRun → List UsageRow
group_runs [] = []
group_runs (r ∷ rs) = group_run r (group_runs rs)

pub record AiUsage : Type 0 where
  pub total_prompt_tokens : ℕ
  pub total_completion_tokens : ℕ
  pub total_tokens : ℕ
  pub breakdown : List UsageRow

abbrev pub sum_prompt : List UsageRow → ℕ
sum_prompt [] = 0
sum_prompt (x ∷ xs) = x.prompt_tokens + sum_prompt xs

abbrev pub sum_completion : List UsageRow → ℕ
sum_completion [] = 0
sum_completion (x ∷ xs) = x.completion_tokens + sum_completion xs

unfoldable pub ai_usage : ℕ → Option ℕ → Option ℕ → Option AgentType → Db → AiUsage
ai_usage company_id date_from date_to agent_type db =
    let rows =
      group_runs (select (counted_run company_id date_from date_to agent_type) db.agent_runs) in
    record {
      total_prompt_tokens = sum_prompt rows;
      total_completion_tokens = sum_completion rows;
      total_tokens = sum_prompt rows + sum_completion rows;
      breakdown = rows;
    }

sums-group_run :
    (r : AgentRun) (xs : List UsageRow)
    → (sum_prompt (group_run r xs) ≡ r.prompt_tokens + sum_prompt xs)
      × (sum_completion (group_run r xs) ≡ r.completion_tokens + sum_completion xs)
unfolding group_run
sums-group_run r [] = (omega arith, omega arith)
sums-group_run r (x ∷ xs) =
    let (a, b) = sums-group_run r xs in (ground (arith, a), ground (arith, b))

-- The tokens of runs, added up.
abbrev pub run_tokens : List AgentRun → ℕ
run_tokens [] = 0
run_tokens (r ∷ rs) = r.prompt_tokens + r.completion_tokens + run_tokens rs

sums-group_runs :
    (rs : List AgentRun)
    → sum_prompt (group_runs rs) + sum_completion (group_runs rs) ≡ run_tokens rs
unfolding group_runs
sums-group_runs [] = refl
sums-group_runs (r ∷ rs) =
    let (a, b) = sums-group_run r (group_runs rs) in omega (arith, a, b, sums-group_runs rs)

-- The grand total of a company is the tokens of its runs that the filters let through: grouping
-- loses none and counts none twice.
pub ai_usage-total :
    (company_id : ℕ) (date_from date_to : Option ℕ) (agent_type : Option AgentType) (db : Db)
    → (ai_usage company_id date_from date_to agent_type db).total_tokens
      ≡ run_tokens (select (counted_run company_id date_from date_to agent_type) db.agent_runs)
unfolding ai_usage
ai_usage-total company_id date_from date_to agent_type db =
    sums-group_runs (select (counted_run company_id date_from date_to agent_type) db.agent_runs)
