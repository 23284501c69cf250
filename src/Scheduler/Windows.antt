-- ===== src/Scheduler/Windows.antt =====
-- A job fires once in a window: what a pass leaves of a job that was due.
use kaats_v.Base.{
  ℕ, ◌+◌, ◌<◌, ◌≡◌, refl, ◌⊎◌, inl, inr, false, ◌&&◌, leb, Bool, Option, some, List, arith, get,
  get-key, get-update, ok, Result,
}
use kaats_v.Schema.{Db, ScheduledJob, ScheduledJobRun, ScheduleType, JobConfig}
use kaats_v.Quota.{Platform}
use kaats_v.Scheduler.{
  Cron, is_due, triggered_job, dispatch_scheduled_job, failed_job, fail_job, after_dispatch,
  run_job,
}
use kaats_v.Scheduler.Dispatch.{Fired, Leaves, dispatch_scheduled_job-Leaves}

-- When a job that returned from its dispatch is due again.
abbrev pub due_again : ℕ → ScheduledJob → ℕ → Bool
due_again next job t = job.is_active && leb next t

module _ (platform : Platform) (cron : Cron) where
  Fired-not_due :
      (now : ℕ) (job new : ScheduledJob) → Fired platform cron now job new → is_due now new ≡ false
  unfolding is_due
  Fired-not_due now job new (Fired.once e) = ground arith
  Fired-not_due now job new (Fired.again next e c) =
      let later = cron.compute_next_run_after _ _ now next c in ground arith

  -- How a pass leaves a stored job: fired, or with its failure counted, before or after the job
  -- was marked as run.
  pub data Passed (now : ℕ) (job : ScheduledJob) : Option ScheduledJob → Type 0 where
    fired : (new : ScheduledJob) → Fired platform cron now job new → Passed now job (some new)
    refused : Passed now job (some (failed_job job))
    unscheduled : Passed now job (some (failed_job (triggered_job now job)))

  pub fail_job-get :
      (job stored : ScheduledJob) (db : Db)
      → get ScheduledJob.id job.id db.jobs ≡ some stored
      → get ScheduledJob.id job.id (fail_job job db).jobs ≡ some (failed_job stored)
  fail_job-get job stored db h =
      let key = get-key ScheduledJob.id job.id stored db.jobs h in
      ground (arith, get-update ScheduledJob.id job.id job.id (failed_job) stored db.jobs)

  after_dispatch-Passed :
      (now : ℕ) (job : ScheduledJob) (config : JobConfig) (r : Result ScheduledJobRun)
      (o : Option ScheduledJob) (rows : List ScheduledJobRun) (db : Db)
      → Leaves platform cron now job config r o rows
      → get ScheduledJob.id job.id db.jobs ≡ o
      → Passed now job (get ScheduledJob.id job.id (after_dispatch job r db).jobs)
  after_dispatch-Passed now job config r o rows db (Leaves.fired run new runs made f) h =
      rw h (Passed.fired new f)
  after_dispatch-Passed now job config r o rows db (Leaves.refused e runs why) h =
      rw (fail_job-get job job db h) Passed.refused
  after_dispatch-Passed now job config r o rows db (Leaves.unscheduled runs t c) h =
      rw (fail_job-get job (triggered_job now job) db h) Passed.unscheduled

  pub run_job-Passed :
      (now : ℕ) (job : ScheduledJob) (db : Db)
      → get ScheduledJob.id job.id db.jobs ≡ some job
      → Passed now job (get ScheduledJob.id job.id (run_job platform cron now job db).jobs)
  unfolding run_job
  run_job-Passed now job db h =
      after_dispatch-Passed now job _ _ _ _ _
        (dispatch_scheduled_job-Leaves platform cron now job db h) refl

  Fired-failures :
      (now : ℕ) (job new : ScheduledJob)
      → Fired platform cron now job new
      → new.consecutive_failures ≡ job.consecutive_failures
  Fired-failures now job new (Fired.once e) = refl
  Fired-failures now job new (Fired.again next e c) = refl

  accounted :
      (now : ℕ) (job : ScheduledJob) (o : Option ScheduledJob)
      → Passed now job o
      → (new : ScheduledJob) × (o ≡ some new)
        × (((is_due now new ≡ false) × (new.consecutive_failures ≡ job.consecutive_failures))
            ⊎ ((new.consecutive_failures ≡ job.consecutive_failures + 1)
                × ((new.is_active ≡ false) ⊎ (job.consecutive_failures + 1 < job.max_failures))))
  accounted now job o (Passed.fired new f) =
      (new, refl, inl (Fired-not_due now job new f, Fired-failures now job new f))
  accounted now job o Passed.refused = (failed_job job, refl, inr (refl, ground arith))
  accounted now job o Passed.unscheduled =
      (failed_job (triggered_job now job), refl, inr (refl, ground arith))

  -- A pass over a stored job ends in one of two ways: the job is not due any more at that time and
  -- its failure counter is as before; or the counter is one higher, and the job is switched off
  -- if that reaches its limit.
  pub run_job-accounted :
      (now : ℕ) (job : ScheduledJob) (db : Db)
      → get ScheduledJob.id job.id db.jobs ≡ some job
      → (new : ScheduledJob) × (get ScheduledJob.id job.id (run_job platform cron now job db).jobs
          ≡ some new)
        × (((is_due now new ≡ false) × (new.consecutive_failures ≡ job.consecutive_failures))
            ⊎ ((new.consecutive_failures ≡ job.consecutive_failures + 1)
                × ((new.is_active ≡ false) ⊎ (job.consecutive_failures + 1 < job.max_failures))))
  run_job-accounted now job db h = accounted now job _ (run_job-Passed now job db h)

  later_due :
      (now : ℕ) (job new : ScheduledJob)
      → Fired platform cron now job new
      → ((job.schedule_type ≡ ScheduleType.one_shot) × ((t : ℕ) → is_due t new ≡ false))
        ⊎ ((next : ℕ) × (job.schedule_type ≡ ScheduleType.recurring)
            × (now < next)
            × ((t : ℕ) → is_due t new ≡ due_again next job t))
  unfolding is_due
  later_due now job new (Fired.once e) = inl (e, λ t. ground arith)
  later_due now job new (Fired.again next e c) =
      let later = cron.compute_next_run_after _ _ now next c in
      inr (next, e, later, λ t. ground arith)

  dispatched :
      (now : ℕ) (job : ScheduledJob) (config : JobConfig) (r : Result ScheduledJobRun)
      (o : Option ScheduledJob) (rows : List ScheduledJobRun) (run : ScheduledJobRun)
      → Leaves platform cron now job config r o rows
      → r ≡ ok run
      → (new : ScheduledJob) × (o ≡ some new) × Fired platform cron now job new
  dispatched now job config r o rows run (Leaves.fired run' new runs made f) e = (new, refl, f)
  dispatched now job config r o rows run (Leaves.refused x runs why) e = absurd (cc e)
  dispatched now job config r o rows run (Leaves.unscheduled runs t c) e = absurd (cc e)

  -- After a dispatch that returns, a one-shot job is never due again, and a recurring one, if it
  -- is active, is due again exactly from a point in time after this one on.
  pub dispatch_scheduled_job-due_again :
      (now : ℕ) (job : ScheduledJob) (run : ScheduledJobRun) (db : Db)
      → get ScheduledJob.id job.id db.jobs ≡ some job
      → (dispatch_scheduled_job platform cron now job db).0 ≡ ok run
      → (new : ScheduledJob) × (get ScheduledJob.id job.id
            (dispatch_scheduled_job platform cron now job db).1.jobs
          ≡ some new)
        × (((job.schedule_type ≡ ScheduleType.one_shot) × ((t : ℕ) → is_due t new ≡ false))
            ⊎ ((next : ℕ) × (job.schedule_type ≡ ScheduleType.recurring)
                × (now < next)
                × ((t : ℕ) → is_due t new ≡ due_again next job t)))
  dispatch_scheduled_job-due_again now job run db h e =
      let (new, stored, f) =
        dispatched now job _ _ _ _ run (dispatch_scheduled_job-Leaves platform cron now job db h)
          e in
      (new, stored, later_due now job new f)
