-- ===== src/Hub/Finishing.antt =====
-- When `finish` of crates/maxops-hub/src/deployment_workflow.rs ends, and what it leaves.
use maxops.Prelude.{
  ℕ, zero, suc, true, false, ◌&&◌, Option, some, ok, err, ◌≡◌, refl, sym, ap, ◌∙◌, arith,
  ok-injective,
}
use mathlib.Core.Option.{some-injective}
use maxops.Prelude.Programs.{choice_ind}
use maxops.Proto.Ids.{JobId}
use maxops.Proto.Json.{Value}
use maxops.Proto.Jobs.{Timestamp, JobRecord}
use maxops.Proto.JobState
use maxops.Proto.JobState.{
  JobState, queued, succeeded, reconciling, failed, outcome_unknown, is_terminal, can_transition_to,
  eq_iff,
}
use maxops.Store.Db.{Db}
use maxops.Store.Errors.{Outcome}
use maxops.Store.Jobs.{get_job, find_job}
use maxops.Store.Jobs.Cas.{transition_job-inverts, get_job-transitioned}
use maxops.Hub.Following.{get_job-found}
use maxops.Hub.Finish.{
  Others, Round, ended, again, final_state, next_state, hub_event, after_step, finish_step, go_on,
  finish_job, finish_round, finish,
}

-- No other task writes.
abbrev pub quiet : Others
quiet = record { before_read = λ n db. db; before_write = λ n db. db }

final_terminal :
    (wanted current : JobState)
    → is_terminal wanted ≡ true
    → is_terminal (final_state wanted current) ≡ true
unfolding final_state is_terminal
final_terminal wanted current h = ground (arith, h)

-- The table allows the next step from every state that is not terminal, except a success of a job
-- that was never started.
pub step_allowed :
    (wanted current : JobState)
    → is_terminal wanted ≡ true
    → is_terminal current ≡ false
    → (JobState.eq current queued && JobState.eq wanted succeeded) ≡ false
    → can_transition_to current (next_state (final_state wanted current) current) ≡ true
unfolding final_state next_state is_terminal can_transition_to JobState.eq
step_allowed wanted current t c h = ground (arith, t, c, h)

module _ (at : Timestamp) (id : JobId) (wanted : JobState) (result : Value) where
  -- The table holds the job in a terminal state.
  unfoldable pub IsSettled : Db → Type 0
  IsSettled db = (r : JobRecord) × (find_job db id ≡ some r) × (is_terminal r.state ≡ true)

  ended_ok :
      (next final : JobState) (outcome : Outcome JobRecord)
      → after_step next final outcome ≡ ended (ok tt)
      → (r : JobRecord) × (outcome ≡ ok r) × (next ≡ final)
  unfolding after_step
  ended_ok next final (ok r) h = (r, refl, (eq_iff next final).0 (ground (arith, h)))
  ended_ok next final (err e) h = absurd (ground (arith, h))

  finish_step-IsSettled :
      (before_write : Db → Db) (job : JobRecord) (db : Db)
      → is_terminal wanted ≡ true
      → (finish_step at id wanted result before_write job db).1 ≡ ended (ok tt)
      → IsSettled (finish_step at id wanted result before_write job db).0
  unfolding finish_step IsSettled
  finish_step-IsSettled before_write job db t h =
      let final : JobState = final_state wanted job.state in
      let (r, q, same) = ended_ok (next_state final job.state) final _ h in
      let (row, can, e) =
        transition_job-inverts at id job.revision (next_state final job.state) hub_event _
          (before_write db) q in
      (
        r,
        ap (λ x. find_job x.0 id) e
            ∙ get_job-found _ _ (
                get_job-transitioned at id job.revision (next_state final job.state) hub_event _
                  (before_write db) row can.found)
            ∙ ap some (ok-injective (ap (λ x. x.1) (sym e) ∙ q)),
        ap is_terminal (ap (λ x. x.state) (ok-injective (sym q ∙ ap (λ x. x.1) e)) ∙ same)
            ∙ final_terminal wanted job.state t,
      )

  finish_job-IsSettled :
      (before_write : Db → Db) (o : Outcome JobRecord) (db : Db)
      → is_terminal wanted ≡ true
      → get_job db id ≡ o
      → (finish_job at id wanted result before_write o db).1 ≡ ended (ok tt)
      → IsSettled (finish_job at id wanted result before_write o db).0
  unfolding finish_job IsSettled
  finish_job-IsSettled before_write (err e) db t g h = absurd (ground (arith, h))
  finish_job-IsSettled before_write (ok job) db t g h =
      choice_ind (λ (x : Db × Round). x.1 ≡ ended (ok tt) → IsSettled x.0) _
        (λ over r. (job, get_job-found db id g, over))
        (λ live r. finish_step-IsSettled before_write job db t r) h

  go_on-IsSettled :
      (db : Db) (r : Round) (rest : Db → Db × Option (Outcome (Unit {0})))
      → (r ≡ ended (ok tt) → IsSettled db)
      → ((d : Db) → (rest d).1 ≡ some (ok tt) → IsSettled (rest d).0)
      → (go_on db r rest).1 ≡ some (ok tt)
      → IsSettled (go_on db r rest).0
  unfolding go_on
  go_on-IsSettled db (ended o) rest h k e = h (ap ended (some-injective _ _ e))
  go_on-IsSettled db again rest h k e = k db e

  -- When `finish` ends without an error, whatever other tasks have done meanwhile, the table holds
  -- the job in a terminal state.
  pub finish-IsSettled :
      (others : Others) (rounds : ℕ) (db : Db)
      → is_terminal wanted ≡ true
      → (finish at id wanted result others rounds db).1 ≡ some (ok tt)
      → IsSettled (finish at id wanted result others rounds db).0
  unfolding finish finish_round
  finish-IsSettled others zero db t h = cc
  finish-IsSettled others (suc rounds) db t h =
      let read = others.before_read rounds db in
      go_on-IsSettled _ _ (finish at id wanted result others rounds)
        (finish_job-IsSettled (others.before_write rounds) _ read t refl)
        (λ d. finish-IsSettled others rounds d t) h
