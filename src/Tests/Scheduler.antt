-- ===== src/Tests/Scheduler.antt =====
-- Scheduled jobs on a few rows.
use kaats_v.Base.{
  ℕ, ◌+◌, ◌≤◌, ◌<◌, ◌≡◌, refl, ◌⊎◌, true, false, none, some, Option, String, List, [], ◌∷◌, arith,
  get, count,
}
use kaats_v.Schema.{Db, ScheduledJob, ScheduleType, AgentType, JobConfig}
use kaats_v.Scheduler.{Cron, is_due, run_job}
use kaats_v.Scheduler.Windows.{run_job-accounted}
use kaats_v.Scheduler.Jobs.{ScheduledJobCreate, active_jobs}
use kaats_v.Scheduler.Limit.{JobRequest, serve_jobs, serve_jobs-within_limit}
use kaats_v.Tests.Data.{platform, two_companies}

-- Fires every 900 units of time.
abbrev next_quarter : String → String → ℕ → Option ℕ
next_quarter expression timezone after = some (after + 900)

next_quarter_after :
    (expression timezone : String) (after next : ℕ)
    → next_quarter expression timezone after ≡ some next
    → after < next
next_quarter_after expression timezone after next h = ground arith

abbrev quarterly : Cron
quarterly = record {
  is_valid = λ expression. true;
  has_min_interval = λ expression. true;
  compute_next_run = next_quarter;
  compute_next_run_after = next_quarter_after;
}

abbrev no_config : JobConfig
no_config = record {
  target_url = none;
  base_url = none;
  max_pages = none;
  requirement_ids = [];
  auto_generate = false;
  target_formats = [];
  export_formats = [];
  script_ids = [];
  script_id = none;
  auto_execute_approved = false;
}

abbrev crawl_job : ScheduledJob
crawl_job = record {
  id = 70;
  company_id = 20;
  system_id = some 30;
  created_by = some 2;
  name = "crawl";
  agent_type = AgentType.crawl;
  schedule_type = ScheduleType.recurring;
  cron_expression = some "*/15 * * * *";
  timezone = "UTC";
  run_at = none;
  job_config = record no_config { target_url = some "https://erp" };
  is_active = true;
  max_failures = 3;
  consecutive_failures = 0;
  next_run_at = some 1000;
  last_run_at = none;
  last_run_status = none;
}

abbrev with_job : ScheduledJob → Db
with_job job = record two_companies { jobs = job ∷ [] }

run_job-accounted_example :
    (new : ScheduledJob) × (get ScheduledJob.id 70
        (run_job platform quarterly 1000 crawl_job (with_job crawl_job)).jobs
      ≡ some new)
    × (((is_due 1000 new ≡ false) × (new.consecutive_failures ≡ 0))
        ⊎ ((new.consecutive_failures ≡ 0 + 1) × ((new.is_active ≡ false) ⊎ (0 + 1 < 3))))
unfolding get
run_job-accounted_example =
    run_job-accounted platform quarterly 1000 crawl_job (with_job crawl_job) refl

abbrev crawl_body : ScheduledJobCreate
crawl_body = record {
  name = "crawl";
  agent_type = AgentType.crawl;
  schedule_type = ScheduleType.recurring;
  cron_expression = some "*/15 * * * *";
  timezone = "UTC";
  run_at = none;
  job_config = record no_config { target_url = some "https://erp" };
  is_active = true;
  max_failures = 3;
}

abbrev job_requests : List JobRequest
job_requests = JobRequest.create 1000 crawl_body 30 2 20 ∷ JobRequest.deactivate 70 30 ∷ []

serve_jobs-within_limit_example :
    active_jobs 30 20 (serve_jobs quarterly job_requests (with_job crawl_job)) ≤ 20
unfolding active_jobs count
serve_jobs-within_limit_example =
    serve_jobs-within_limit quarterly job_requests 30 20 (with_job crawl_job) (omega arith)
