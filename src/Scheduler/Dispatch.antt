-- ===== src/Scheduler/Dispatch.antt =====
-- What the dispatch of a job leaves in the tables of jobs and of their runs, in the words of the code.
use kaats_v.Base.{
  ℕ, ◌≡◌, refl, sym, subst, inl, inr, true, Option, none, some, List, [], ◌∷◌, arith, get,
  get-replace, ok, err, Result, Error, other_exception, Option-cases, pure, modify, ◌>>=◌, ◌>>◌,
  or_else, is_ok, is_some, String, ◌⊎◌,
}
use kaats_v.Schema.{
  ScheduledJobRunStatus, Db, ScheduledJob, ScheduledJobRun, ScheduleType, JobConfig, AgentRun,
  AgentType, other_agent,
}
use kaats_v.Quota.{Platform}
use kaats_v.Agents.{
  create_and_publish, create_and_publish, dispatch_crawl, dispatch_generation, dispatch_execution,
}
use kaats_v.Scheduler.{
  Cron, order_of, dispatch_scripts, dispatch_scripts_of, dispatch_for_type, add_job_run, put_job,
  triggered_job, reschedule, dispatch_scheduled_job, resolve_config,
}

module _ (platform : Platform) where
  execution-ok :
      (now : ℕ) (job : ScheduledJob) (script : ℕ) (db : Db)
      → is_ok (dispatch_execution platform now (order_of job) script db).0 ≡ true
  unfolding dispatch_execution create_and_publish
  execution-ok now job script db = refl

  execution-jobs :
      (now : ℕ) (job : ScheduledJob) (script : ℕ) (db : Db)
      → (dispatch_execution platform now (order_of job) script db).1.jobs ≡ db.jobs
  unfolding dispatch_execution create_and_publish
  execution-jobs now job script db = refl

  scripts-jobs :
      (now : ℕ) (job : ScheduledJob) (script : ℕ) (rest : List ℕ) (db : Db)
      → (dispatch_scripts platform now job script rest db).1.jobs ≡ db.jobs
  unfolding dispatch_scripts dispatch_execution create_and_publish
  scripts-jobs now job script [] db = refl
  scripts-jobs now job script (next ∷ rest) db = scripts-jobs now job next rest _

  scripts_of-jobs :
      (now : ℕ) (job : ScheduledJob) (scripts : List ℕ) (single : Option ℕ) (db : Db)
      → (dispatch_scripts_of platform now job scripts single db).1.jobs ≡ db.jobs
  scripts_of-jobs now job [] none db = refl
  scripts_of-jobs now job [] (some script) db = execution-jobs now job script db
  scripts_of-jobs now job (script ∷ rest) single db = scripts-jobs now job script rest db

  scripts-ok :
      (now : ℕ) (job : ScheduledJob) (script : ℕ) (rest : List ℕ) (db : Db)
      → is_ok (dispatch_scripts platform now job script rest db).0 ≡ true
  unfolding dispatch_scripts dispatch_execution create_and_publish
  scripts-ok now job script [] db = refl
  scripts-ok now job script (next ∷ rest) db = scripts-ok now job next rest _

  scripts_of-refused :
      (now : ℕ) (job : ScheduledJob) (scripts : List ℕ) (single : Option ℕ) (e : Error) (db : Db)
      → (dispatch_scripts_of platform now job scripts single db).0 ≡ err e
      → (scripts ≡ []) × (single ≡ none)
  scripts_of-refused now job [] none e db h = (refl, refl)
  scripts_of-refused now job [] (some script) e db h = absurd (cc (execution-ok now job script db))
  scripts_of-refused now job (script ∷ rest) single e db h =
      absurd (cc (scripts-ok now job script rest db))

  -- A job without a run is of an unknown type, or is to execute no script.
  dispatch_for_type-refused :
      (now : ℕ) (job : ScheduledJob) (config : JobConfig) (t : AgentType) (e : Error) (db : Db)
      → (dispatch_for_type platform now job config t db).0 ≡ err e
      → ((text : String) × (t ≡ other_agent text))
        ⊎ ((t ≡ AgentType.execution) × (config.script_ids ≡ []) × (config.script_id ≡ none))
  unfolding dispatch_for_type dispatch_crawl dispatch_generation create_and_publish
  dispatch_for_type-refused now job config AgentType.crawl e db h = absurd (cc h)
  dispatch_for_type-refused now job config AgentType.generation e db h = absurd (cc h)
  dispatch_for_type-refused now job config AgentType.execution e db h =
      let (a, b) = scripts_of-refused now job config.script_ids config.script_id e db h in
      inr (refl, a, b)
  dispatch_for_type-refused now job config (other_agent text) e db h = inl (text, refl)

  -- The runs that a job gets are no business of the table of jobs.
  pub jobs-dispatch_for_type :
      (now : ℕ) (job : ScheduledJob) (config : JobConfig) (t : AgentType) (db : Db)
      → (dispatch_for_type platform now job config t db).1.jobs ≡ db.jobs
  unfolding dispatch_for_type dispatch_crawl dispatch_generation create_and_publish
  jobs-dispatch_for_type now job config AgentType.crawl db = refl
  jobs-dispatch_for_type now job config AgentType.generation db = refl
  jobs-dispatch_for_type now job config AgentType.execution db =
      scripts_of-jobs now job config.script_ids config.script_id db
  jobs-dispatch_for_type now job config (other_agent text) db = refl

-- A job written back is stored.
pub put_job-get :
    (old new : ScheduledJob) (db : Db)
    → get ScheduledJob.id old.id db.jobs ≡ some old
    → new.id ≡ old.id
    → get ScheduledJob.id old.id (put_job new db).jobs ≡ some new
unfolding put_job
put_job-get old new db h e = ground (arith, get-replace ScheduledJob.id old.id new old db.jobs)

-- The job has an unknown agent type, or it is to execute scripts and its configuration names none.
abbrev pub NothingToRun : ScheduledJob → JobConfig → Type 0
NothingToRun job config =
    ((text : String) × (job.agent_type ≡ other_agent text))
    ⊎ ((job.agent_type ≡ AgentType.execution)
        × (config.script_ids ≡ [])
        × (config.script_id ≡ none))

-- The row that records that the job was triggered at the time.
abbrev pub IsTriggered : ℕ → ScheduledJob → ScheduledJobRun → Type 0
IsTriggered now job run =
    (run.job_id ≡ job.id)
    × (is_some run.agent_run_id ≡ true)
    × (run.status ≡ ScheduledJobRunStatus.triggered)
    × (run.scheduled_for ≡ now)
    × (run.completed_at ≡ none)

module _ (platform : Platform) (cron : Cron) where
  -- What a dispatch writes over a job: marked as run and switched off if it is one-shot, marked as
  -- run and put to the next point in time if it is recurring.
  pub data Fired (now : ℕ) (job : ScheduledJob) : ScheduledJob → Type 0 where
    once : job.schedule_type ≡ ScheduleType.one_shot → Fired now job (triggered_job now job)
    again :
        (next : ℕ)
        → job.schedule_type ≡ ScheduleType.recurring
        → cron.compute_next_run (or_else job.cron_expression "0 0 * * *") job.timezone now
          ≡ some next
        → Fired now job (record (triggered_job now job) { next_run_at = some next })

  -- How a dispatch of a stored job with a configuration ends: its result, and then the row of the
  -- job and the table of the runs of jobs.
  pub data Leaves (now : ℕ) (job : ScheduledJob) (config : JobConfig)
      : Result ScheduledJobRun → Option ScheduledJob → List ScheduledJobRun → Type 0 where
    fired :
        (run : ScheduledJobRun) (new : ScheduledJob) (runs : List ScheduledJobRun)
        → IsTriggered now job run
        → Fired now job new
        → Leaves now job config (ok run) (some new) (run ∷ runs)
    refused :
        (e : Error) (runs : List ScheduledJobRun)
        → NothingToRun job config
        → Leaves now job config (err e) (some job) runs
    unscheduled :
        (runs : List ScheduledJobRun)
        → job.schedule_type ≡ ScheduleType.recurring
        → cron.compute_next_run (or_else job.cron_expression "0 0 * * *") job.timezone now ≡ none
        → Leaves now job config (err other_exception) (some (triggered_job now job)) runs

  -- How an action ends on the table of jobs.
  abbrev Ends : ℕ → ScheduledJob → JobConfig → Result ScheduledJobRun × Db → Type 0
  Ends now job config q =
      Leaves now job config q.0 (get ScheduledJob.id job.id q.1.jobs) q.1.job_runs

  reschedule-Ends :
      (now : ℕ) (job : ScheduledJob) (config : JobConfig) (run : ScheduledJobRun)
      (runs : List ScheduledJobRun) (t : ScheduleType) (db : Db)
      → job.schedule_type ≡ t
      → IsTriggered now job run
      → db.job_runs ≡ run ∷ runs
      → get ScheduledJob.id job.id db.jobs ≡ some (triggered_job now job)
      → Ends now job config
          ((reschedule platform cron now (triggered_job now job) t >> pure run) db)
  unfolding reschedule put_job
  reschedule-Ends now job config run runs ScheduleType.one_shot db e made rows h =
      rw (h, rows) (Leaves.fired run (triggered_job now job) runs made (Fired.once e))
  reschedule-Ends now job config run runs ScheduleType.recurring db e made rows h =
      elim (Option-cases
        (cron.compute_next_run (or_else job.cron_expression "0 0 * * *") job.timezone now)) [
          | inl c ↦ rw (c, h) (Leaves.unscheduled db.job_runs e c)
          | inr (next, c) ↦
              let new : ScheduledJob = record (triggered_job now job) { next_run_at = some next } in
              let h' = put_job-get (triggered_job now job) new db h refl in
              rw (c, h', rows) (Leaves.fired run new runs made (Fired.again next e c))
        ]

  -- What follows the dispatch of the agent.
  abbrev rest : ℕ → ScheduledJob → Result AgentRun × Db → Result ScheduledJobRun × Db
  rest now job (ok agent_run, db) =
      (add_job_run now job agent_run >>= λ run.
      modify (put_job (triggered_job now job))
      >> (reschedule platform cron now (triggered_job now job) job.schedule_type >> pure run))
        db
  rest now job (err e, db) = (err e, db)

  rest_of :
      (now : ℕ) (job : ScheduledJob) (q : Result AgentRun × Db)
      → (elim q.0 as (λ _. Result ScheduledJobRun × Db) [
        | ok agent_run ↦ rest now job (ok agent_run, q.1)
        | err e ↦ (err e, q.1)
      ])
        ≡ rest now job q
  rest_of now job (ok agent_run, db) = refl
  rest_of now job (err e, db) = refl

  rest-Ends :
      (now : ℕ) (job : ScheduledJob) (config : JobConfig) (q : Result AgentRun × Db)
      → get ScheduledJob.id job.id q.1.jobs ≡ some job
      → ((e : Error) → q.0 ≡ err e → NothingToRun job config)
      → Ends now job config (rest now job q)
  unfolding add_job_run put_job
  rest-Ends now job config (err e, db) h why = rw h (Leaves.refused e db.job_runs (why e refl))
  rest-Ends now job config (ok agent_run, db) h why =
      let q = add_job_run now job agent_run db in
      reschedule-Ends now job config _ db.job_runs job.schedule_type
        (put_job (triggered_job now job) q.1) refl (refl, refl, refl, refl, refl) refl
        (put_job-get job (triggered_job now job) q.1 h refl)

  pub dispatch_scheduled_job-Leaves :
      (now : ℕ) (job : ScheduledJob) (db : Db)
      → get ScheduledJob.id job.id db.jobs ≡ some job
      → Ends now job (resolve_config now job db) (dispatch_scheduled_job platform cron now job db)
  unfolding dispatch_scheduled_job
  dispatch_scheduled_job-Leaves now job db h =
      let config = resolve_config now job db in
      let q = dispatch_for_type platform now job config job.agent_type db in
      let same = jobs-dispatch_for_type platform now job config job.agent_type db in
      let same' : get ScheduledJob.id job.id q.1.jobs ≡ some job = rw same h in
      subst (Ends now job config) (sym (rest_of now job q)) (
        rest-Ends now job config q same'
          (λ e. dispatch_for_type-refused platform now job config job.agent_type e db))
