-- ===== src/Scheduler/Limit.antt =====
-- The limit of 20 active jobs of a system.
use kaats_v.Base.{
  ℕ, suc, ◌+◌, ◌≤◌, ◌≡◌, ◌⊎◌, inl, inr, true, false, none, some, List, [], ◌∷◌, arith, get, count,
  count-update, replace, ok, opt_is, if◌then◌else◌, get_own, ==_refl,
}
use kaats_v.Schema.{Db, ScheduledJob}
use kaats_v.Scheduler.{Cron, put_job}
use kaats_v.Scheduler.Jobs.{
  ScheduledJobCreate, ScheduledJobUpdate, is_active_job, active_jobs, check_active_job_limit,
  create_scheduled_job, deactivate_scheduled_job, reschedules, apply_job_update,
  update_scheduled_job,
}

-- What a row written back changes in the count of active jobs.
active_jobs-put_job :
    (s c : ℕ) (old new : ScheduledJob) (db : Db)
    → get ScheduledJob.id new.id db.jobs ≡ some old
    → active_jobs s c (put_job new db) + (if is_active_job s c old then 1 else 0)
      ≡ active_jobs s c db + (if is_active_job s c new then 1 else 0)
unfolding active_jobs put_job replace
active_jobs-put_job s c old new db h =
    count-update ScheduledJob.id (is_active_job s c) new.id (λ _. new) old db.jobs h

module _ (cron : Cron) where
  created :
      (now : ℕ) (body : ScheduledJobCreate) (system user company s c : ℕ) (db : Db)
      → active_jobs s c db ≤ 20
      → active_jobs s c (create_scheduled_job cron now body system user company db).1 ≤ 20
  unfolding create_scheduled_job check_active_job_limit active_jobs count
  created now body system user company s c db h = ground arith

deactivated_rows :
    (job_id system : ℕ) (db : Db)
    → ((deactivate_scheduled_job job_id system db).1 ≡ db)
      ⊎ ((job : ScheduledJob) × (get ScheduledJob.id job_id db.jobs ≡ some job)
          × ((deactivate_scheduled_job job_id system db).1
              ≡ put_job (record job { is_active = false }) db))
unfolding deactivate_scheduled_job
deactivated_rows job_id system db = ground arith

deactivated :
    (job_id system s c : ℕ) (db : Db)
    → active_jobs s c db ≤ 20
    → active_jobs s c (deactivate_scheduled_job job_id system db).1 ≤ 20
deactivated job_id system s c db h = elim (deactivated_rows job_id system db) [
  | inl e ↦ rw e h
  | inr (job, stored, e) ↦
      let change =
        active_jobs-put_job s c job (record job { is_active = false }) db
          (get_own ScheduledJob.id job_id job db.jobs stored) in
      rw e (ground arith)
]

-- A request of a client: to create a job, or to deactivate one.
pub data JobRequest : Type 0 where
  create : ℕ → ScheduledJobCreate → ℕ → ℕ → ℕ → JobRequest
  deactivate : ℕ → ℕ → JobRequest

module _ (cron : Cron) where
  unfoldable pub serve_jobs : List JobRequest → Db → Db
  serve_jobs [] db = db
  serve_jobs (JobRequest.create now body system user company ∷ qs) db =
      serve_jobs qs (create_scheduled_job cron now body system user company db).1
  serve_jobs (JobRequest.deactivate job_id system ∷ qs) db =
      serve_jobs qs (deactivate_scheduled_job job_id system db).1

  -- Over any sequence of creations and deactivations, a system that starts with at most 20 active
  -- jobs keeps to that limit.
  pub serve_jobs-within_limit :
      (qs : List JobRequest) (s c : ℕ) (db : Db)
      → active_jobs s c db ≤ 20
      → active_jobs s c (serve_jobs qs db) ≤ 20
  unfolding serve_jobs
  serve_jobs-within_limit [] s c db h = h
  serve_jobs-within_limit (JobRequest.create now body system user company ∷ qs) s c db h =
      serve_jobs-within_limit qs s c _ (created cron now body system user company s c db h)
  serve_jobs-within_limit (JobRequest.deactivate job_id system ∷ qs) s c db h =
      serve_jobs-within_limit qs s c _ (deactivated job_id system s c db h)

  -- An update does not ask for the limit: one that switches a stored, inactive job on, and changes
  -- nothing else, succeeds, and the system has one more active job than before.
  pub update_scheduled_job-over_limit :
      (now job_id system : ℕ) (body : ScheduledJobUpdate) (job : ScheduledJob) (db : Db)
      → get ScheduledJob.id job_id db.jobs ≡ some job
      → opt_is job.system_id system ≡ true
      → job.is_active ≡ false
      → body.is_active ≡ some true
      → reschedules body ≡ false
      → body.job_config ≡ none
      → ((update_scheduled_job cron now job_id system body db).0
          ≡ ok (apply_job_update body job.next_run_at job))
        × (active_jobs system job.company_id (update_scheduled_job cron now job_id system body db).1
            ≡ suc (active_jobs system job.company_id db))
  unfolding update_scheduled_job apply_job_update
  update_scheduled_job-over_limit now job_id system body job db stored own off on same none_given =
      let new = apply_job_update body job.next_run_at job in
      let change =
        active_jobs-put_job system job.company_id job new db
          (get_own ScheduledJob.id job_id job db.jobs stored) in
      (ground arith, ground (arith, ==_refl job.company_id))
