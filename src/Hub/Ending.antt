-- ===== src/Hub/Ending.antt =====
-- How many rounds `finish` of crates/maxops-hub/src/deployment_workflow.rs takes.
use maxops.Prelude.{
  ℕ, suc, ◌+◌, ◌≤◌, true, false, ◌&&◌, Option, some, ok, ◌≡◌, refl, ap, ◌∙◌, arith, inl, inr,
  Bool-cases, subst,
}
use maxops.Prelude.Programs.{choice_false}
use maxops.Proto.Ids.{JobId}
use maxops.Proto.Json.{Value}
use maxops.Proto.Jobs.{Timestamp, JobRecord}
use maxops.Proto.JobState
use maxops.Proto.JobState.{
  JobState, queued, succeeded, reconciling, failed, outcome_unknown, is_terminal, can_transition_to,
  eq_iff,
}
use maxops.Store.Db.{Db}
use maxops.Store.Errors.{i64_max}
use maxops.Store.Jobs.{get_job, find_job, transition_job}
use maxops.Store.Jobs.Inversion.{transitioned}
use maxops.Store.Jobs.Cas.{transition_job-commits, get_job-transitioned, next_row}
use maxops.Store.Jobs.Keys.{HasUniqueJobs, transition_job-HasUniqueJobs}
use maxops.Hub.Following.{get_job-found}
use maxops.Hub.Finish.{
  ended, again, final_state, next_state, hub_event, result_at, after_step, finish_step, go_on,
  finish_job, finish_round, finish,
}
use maxops.Hub.Finishing.{quiet, step_allowed}

reconciling_live : is_terminal reconciling ≡ false
unfolding is_terminal
reconciling_live = refl

not_queued : (s : JobState) → (JobState.eq reconciling queued && JobState.eq s succeeded) ≡ false
unfolding JobState.eq
not_queued s = refl

step_done :
    (next final : JobState) (r : JobRecord)
    → JobState.eq next final ≡ true
    → after_step next final (ok r) ≡ ended (ok tt)
unfolding after_step
step_done next final r e = rw (e, after_step) refl

step_left :
    (next final : JobState) (r : JobRecord)
    → JobState.eq next final ≡ false
    → after_step next final (ok r) ≡ again
unfolding after_step
step_left next final r e = rw (e, after_step) refl

module _ (at : Timestamp) (id : JobId) (wanted : JobState) (result : Value) where
  abbrev final_of : JobRecord → JobState
  final_of row = final_state wanted row.state

  abbrev next_of : JobRecord → JobState
  next_of row = next_state (final_of row) row.state

  abbrev outcome_of : JobRecord → Option Value
  outcome_of row = result_at (next_of row) (final_of row) result

  -- The tables and the job after the step of a round.
  abbrev stepped : JobRecord → Db → Db
  stepped row db = transitioned at id row (next_of row) hub_event (outcome_of row) db

  abbrev stepped_row : JobRecord → Db → JobRecord
  stepped_row row db = next_row at id row.revision (next_of row) hub_event (outcome_of row) db row

  -- The job is there, is not terminal, may take the step, and its revision fits.
  record CanStep (row : JobRecord) (db : Db) : Type 0 where
    unique : HasUniqueJobs db
    found : find_job db id ≡ some row
    live : is_terminal row.state ≡ false
    fits : row.revision + 1 ≤ i64_max
    startable : (JobState.eq row.state queued && JobState.eq wanted succeeded) ≡ false

  module _ (wanted-terminal : is_terminal wanted ≡ true) where
    step_commits :
        (row : JobRecord) (db : Db)
        → CanStep row db
        → transition_job at id row.revision (next_of row) hub_event (outcome_of row) db
          ≡ (stepped row db, ok (stepped_row row db))
    step_commits row db c =
        transition_job-commits at id row.revision (next_of row) hub_event (outcome_of row) db row
          c.unique
          (record {
            found = c.found;
            current = refl;
            allowed = step_allowed wanted row.state wanted-terminal c.live c.startable;
            fits = c.fits;
          })

    round_steps :
        (row : JobRecord) (db : Db)
        → CanStep row db
        → finish_round at id wanted result (λ d. d) db
          ≡ (stepped row db, after_step (next_of row) (final_of row) (ok (stepped_row row db)))
    unfolding finish_round finish_job finish_step get_job
    round_steps row db c = rw c.found (
        choice_false _ _ c.live
        ∙ ap (λ x. (x.0, after_step (next_of row) (final_of row) x.1)) (step_commits row db c))

    ends_now :
        (rounds : ℕ) (row : JobRecord) (db : Db)
        → CanStep row db
        → JobState.eq (next_of row) (final_of row) ≡ true
        → (finish at id wanted result quiet (suc rounds) db).1 ≡ some (ok tt)
    unfolding finish go_on
    ends_now rounds row db c same =
        ap (λ x. (go_on x.0 x.1 (finish at id wanted result quiet rounds)).1)
          (round_steps row db c
            ∙ ap (λ r. (stepped row db, r))
                (step_done (next_of row) (final_of row) (stepped_row row db) same))

    goes_on :
        (rounds : ℕ) (row : JobRecord) (db : Db)
        → CanStep row db
        → JobState.eq (next_of row) (final_of row) ≡ false
        → (finish at id wanted result quiet (suc rounds) db).1
          ≡ (finish at id wanted result quiet rounds (stepped row db)).1
    unfolding finish go_on
    goes_on rounds row db c other =
        ap (λ x. (go_on x.0 x.1 (finish at id wanted result quiet rounds)).1)
          (round_steps row db c
            ∙ ap (λ r. (stepped row db, r))
                (step_left (next_of row) (final_of row) (stepped_row row db) other))

    -- A step that does not end the loop is the one to `reconciling`, for an unknown outcome.
    halfway :
        (row : JobRecord)
        → JobState.eq (next_of row) (final_of row) ≡ false
        → (wanted ≡ outcome_unknown) × (next_of row ≡ reconciling)
    unfolding next_state final_state JobState.eq
    halfway row other = ground (arith, other)

    reconciling_ends :
        (s : JobState)
        → wanted ≡ outcome_unknown
        → s ≡ reconciling
        → JobState.eq (next_state (final_state wanted s) s) (final_state wanted s) ≡ true
    unfolding next_state final_state JobState.eq
    reconciling_ends s w r = rw w (rw r refl)

    -- `finish` ends without an error within two rounds when no other task writes, the wanted state
    -- is terminal, and the job is there, is not terminal and has two revisions left, unless it is
    -- the success of a job that was never started.
    pub finish-ends :
        (rounds : ℕ) (row : JobRecord) (db : Db)
        → HasUniqueJobs db
        → find_job db id ≡ some row
        → is_terminal row.state ≡ false
        → row.revision + 2 ≤ i64_max
        → (JobState.eq row.state queued && JobState.eq wanted succeeded) ≡ false
        → (finish at id wanted result quiet (suc (suc rounds)) db).1 ≡ some (ok tt)
    finish-ends rounds row db unique found live fits startable =
        let c : CanStep row db = record {
          unique = unique;
          found = found;
          live = live;
          fits = omega arith;
          startable = startable;
        } in
        elim (Bool-cases (JobState.eq (next_of row) (final_of row))) [
          | inl same ↦ ends_now (suc rounds) row db c same
          | inr other ↦
              let (w, r) = halfway row other in
              goes_on (suc rounds) row db c other
              ∙ ends_now rounds (stepped_row row db) (stepped row db)
                  (record {
                    unique = subst HasUniqueJobs (ap (λ x. x.0) (step_commits row db c)) (
                        transition_job-HasUniqueJobs at id db unique row.revision (next_of row)
                          hub_event (outcome_of row));
                    found = get_job-found _ id (
                        get_job-transitioned at id row.revision (next_of row) hub_event
                          (outcome_of row) db row found);
                    live = ap is_terminal r ∙ reconciling_live;
                    fits = omega arith;
                    startable =
                        ap (λ s. JobState.eq s queued && JobState.eq wanted succeeded) r
                        ∙ not_queued wanted;
                  })
                  (reconciling_ends (next_of row) w r)
        ]
