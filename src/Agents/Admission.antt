-- ===== src/Agents/Admission.antt =====
-- Which runs the dispatcher admits, and what the quota promises over many dispatches.
use kaats_v.Base.{
  ℕ, suc, ◌≤◌, ◌≡◌, refl, ◌⊎◌, inl, inr, ◌==◌, none, some, List, [], ◌∷◌, ok, err, Result, Error,
  arith, count, All, Action, if◌then◌else◌, commit,
}
use kaats_v.Schema.{Db, AgentRun, AgentType, AgentRunStatus, AgentTriggerType, InputConfig}
use kaats_v.Quota.{Platform, get_plan, effective_limits, runs_used_since, assert_agent_run_allowed}
use kaats_v.Quota.Enforcement.{assert_agent_run_allowed-Below}
use kaats_v.Agents.{RunOrder, new_run, add_run, create_and_publish}

-- How a dispatch that no job triggers ends, as the quota check does.
abbrev pub manual_outcome :
    ℕ → AgentType → RunOrder → InputConfig → Result (Unit {0}) → Action Db AgentRun
manual_outcome now t order config (ok u) db = add_run (new_run db.next_id now t order config) db
manual_outcome now t order config (err x) db = (err x, db)

module _ (platform : Platform) where
  -- A dispatch that a scheduled job triggers succeeds whatever the quota says: it stores one
  -- pending run, marked as scheduled, in front of the others.
  pub create_and_publish-scheduled :
      (now job : ℕ) (t : AgentType) (order : RunOrder) (config : InputConfig) (db : Db)
      → order.scheduled_job_id ≡ some job
      → let (r, db') = create_and_publish platform now t order config db in
        (run : AgentRun) × (r ≡ ok run)
        × (db'.agent_runs ≡ run ∷ db.agent_runs)
        × (run.status ≡ AgentRunStatus.pending)
        × (run.trigger_type ≡ AgentTriggerType.scheduled)
        × (run.company_id ≡ order.company_id)
  unfolding create_and_publish
  create_and_publish-scheduled now job t order config db e =
      (new_run db.next_id now t order config, ground arith, ground arith, refl, ground arith, refl)

  admitted :
      (now : ℕ) (t : AgentType) (order : RunOrder) (config : InputConfig) (db : Db)
      → order.scheduled_job_id ≡ none
      → assert_agent_run_allowed platform now order.company_id db ≡ ok tt
      → create_and_publish platform now t order config db
        ≡ add_run (new_run db.next_id now t order config) db
  unfolding create_and_publish
  admitted now t order config db e h = ground arith

  refused :
      (now : ℕ) (t : AgentType) (order : RunOrder) (config : InputConfig) (db : Db) (x : Error)
      → order.scheduled_job_id ≡ none
      → assert_agent_run_allowed platform now order.company_id db ≡ err x
      → create_and_publish platform now t order config db ≡ (err x, db)
  unfolding create_and_publish
  refused now t order config db x e h = ground arith

  -- A dispatch that no job triggers ends as the quota check does: refused with the error of the
  -- check and every row as before, or with one new pending run.
  pub create_and_publish-manual :
      (now : ℕ) (t : AgentType) (order : RunOrder) (config : InputConfig) (db : Db)
      → order.scheduled_job_id ≡ none
      → create_and_publish platform now t order config db
        ≡ manual_outcome now t order config
            (assert_agent_run_allowed platform now order.company_id db)
            db
  create_and_publish-manual now t order config db e =
      by_check (assert_agent_run_allowed platform now order.company_id db) refl
    where
      by_check :
          (q : Result (Unit {0}))
          → assert_agent_run_allowed platform now order.company_id db ≡ q
          → create_and_publish platform now t order config db
            ≡ manual_outcome now t order config
                (assert_agent_run_allowed platform now order.company_id db)
                db
      by_check (ok u) h = rw h (admitted now t order config db e h)
      by_check (err x) h = rw h (refused now t order config db x e h)

  -- One dispatch by hand, of whatever agent for whatever company, at a point in time.
  pub record Dispatch : Type 0 where
    pub now : ℕ
    pub agent_type : AgentType
    pub order : RunOrder
    pub config : InputConfig

  -- Dispatches one after the other, each committed or rolled back.
  unfoldable pub dispatch_each : List Dispatch → Db → Db
  dispatch_each [] db = db
  dispatch_each (d ∷ ds) db =
      dispatch_each ds
        (commit (create_and_publish platform d.now d.agent_type d.order d.config) db).1

  -- The rows after a committed dispatch.
  abbrev after : Dispatch → Db → Db
  after d db = (commit (create_and_publish platform d.now d.agent_type d.order d.config) db).1

  after_cases :
      (d : Dispatch) (db : Db)
      → d.order.scheduled_job_id ≡ none
      → (after d db ≡ db)
        ⊎ ((assert_agent_run_allowed platform d.now d.order.company_id db ≡ ok tt)
            × (after d db
                ≡ (add_run (new_run db.next_id d.now d.agent_type d.order d.config) db).1))
  unfolding commit
  after_cases d db e = by_check (assert_agent_run_allowed platform d.now d.order.company_id db) refl
    where
      by_check :
          (q : Result (Unit {0}))
          → assert_agent_run_allowed platform d.now d.order.company_id db ≡ q
          → (after d db ≡ db)
            ⊎ ((assert_agent_run_allowed platform d.now d.order.company_id db ≡ ok tt)
                × (after d db
                    ≡ (add_run (new_run db.next_id d.now d.agent_type d.order d.config) db).1))
      by_check (ok u) h =
          inr (h, ground (arith, admitted d.now d.agent_type d.order d.config db e h))
      by_check (err x) h =
          inl (ground (arith, refused d.now d.agent_type d.order d.config db x e h))

  -- One more run of the company of the order, in the month of the dispatch.
  counted :
      (d : Dispatch) (db : Db) (company : ℕ)
      → runs_used_since company
          (platform.month_start d.now)
          (add_run (new_run db.next_id d.now d.agent_type d.order d.config) db).1
        ≡ (if d.order.company_id == company
            then suc (runs_used_since company (platform.month_start d.now) db)
            else runs_used_since company (platform.month_start d.now) db)
  unfolding runs_used_since count new_run
  counted d db company = ground (arith, platform.month_start_le d.now)

  within_limit :
      (d : Dispatch) (db : Db) (company limit : ℕ)
      → d.order.scheduled_job_id ≡ none
      → (effective_limits (get_plan company db)).monthly_agent_run_limit ≡ some limit
      → runs_used_since company (platform.month_start d.now) db ≤ limit
      → ((effective_limits (get_plan company (after d db))).monthly_agent_run_limit ≡ some limit)
        × (runs_used_since company (platform.month_start d.now) (after d db) ≤ limit)
  unfolding get_plan
  within_limit d db company limit e l h = elim (after_cases d db e) [
    | inl same ↦ rw same (l, h)
    | inr (allowed, grown) ↦
        let (below, _) =
          assert_agent_run_allowed-Below platform d.now d.order.company_id db allowed in
        rw grown (l, ground (arith, counted d db company))
  ]

  -- The dispatch is by hand, and falls in the month that starts at the given time.
  abbrev pub InMonth : ℕ → Dispatch → Type 0
  InMonth start d = (d.order.scheduled_job_id ≡ none) × (platform.month_start d.now ≡ start)

  -- However many runs are asked for by hand in a month, for whatever companies: a company whose
  -- plan has a limit of runs and whose runs of the month were within it stays within it.
  pub dispatch_each-within_limit :
      (ds : List Dispatch) (start : ℕ) (db : Db) (company limit : ℕ)
      → All (InMonth start) ds
      → (effective_limits (get_plan company db)).monthly_agent_run_limit ≡ some limit
      → runs_used_since company start db ≤ limit
      → runs_used_since company start (dispatch_each ds db) ≤ limit
  unfolding dispatch_each
  dispatch_each-within_limit [] start db company limit a l h = h
  dispatch_each-within_limit (d ∷ ds) start db company limit ((e, m), a) l h =
      let (l', h') = within_limit d db company limit e l (rw m h) in
      dispatch_each-within_limit ds start (after d db) company limit a l' (rw (← m) h')
