-- ===== src/Hub/Following.antt =====
-- What `project_target_job` of crates/maxops-hub/src/lib.rs makes of a job.
use maxops.Prelude.{
  true, false, not, if◌then◌else◌, Bool-cases, inl, inr, ◌&&◌, Option, some, Result, ok, err, ◌≡◌,
  refl, sym, ap, ◌∙◌, arith, subst, eq_of_str_eq, find?-holds, ok-injective, err-ok,
}
use maxops.Prelude.Programs.{continue_with, continue_ind, choice_ind, choice_true, choice_false}
use maxops.Proto.Ids.{JobId}
use maxops.Proto.Json.{Value}
use maxops.Proto.Jobs.{Timestamp, JobRecord}
use maxops.Proto.JobState
use maxops.Proto.JobState.{
  JobState, eq_iff, queued, dispatching, running, reconciling, failed, outcome_unknown,
  can_transition_to, is_terminal,
}
use maxops.Store.Db.{Db}
use maxops.Store.Errors.{Outcome}
use maxops.Store.Jobs.{transition_job, get_job, find_job}
use maxops.Store.Jobs.Cas.{transition_job-inverts, get_job-transitioned, next_row}
use maxops.Hub.Errors.{HubError}
use maxops.Hub.Projection.{
  call_store, step_job, enter_reconciling, take_state, needs_reconciling, project_target_job,
}

-- The state that the hub's record takes when the executor reports the state `target`: the reported
-- one, where the table leads to it or it is an unknown outcome that reconciling leads to.
unfoldable pub projected : JobState → JobState → JobState
projected current target =
    if can_transition_to current target
    then target
    else if JobState.eq target outcome_unknown && can_transition_to current reconciling
    then target
    else current

pub call_store-ok : {A : Type 0} (x : Db × Outcome A) {a : A} → (call_store x).1 ≡ ok a → x.1 ≡ ok a
unfolding call_store
call_store-ok (db, ok b) h = ap ok (ok-injective h)
call_store-ok (db, err e) h = absurd (err-ok h)

pub call_store-state : {A : Type 0} (x : Db × Outcome A) → (call_store x).0 ≡ x.0
unfolding call_store
call_store-state (db, ok b) = refl
call_store-state (db, err e) = refl

pub get_job-found :
    (db : Db) (id : JobId) {r : JobRecord} → get_job db id ≡ ok r → find_job db id ≡ some r
unfolding get_job
get_job-found db id h = ground arith

pub found_id :
    (db : Db) (id : JobId) {row : JobRecord} → find_job db id ≡ some row → row.job_id ≡ id
unfolding find_job
found_id db id {row = row} h = eq_of_str_eq row.job_id id (find?-holds _ db.jobs h)

-- A step that succeeds replies with the job in the new state, as the table then holds it.
pub step_job-ok :
    (at : Timestamp) (job : JobRecord) (next : JobState) (payload : Value) (result : Option Value)
    (db : Db) {r : JobRecord}
    → (step_job at job next payload result db).1 ≡ ok r
    → (r.state ≡ next)
      × (r.job_id ≡ job.job_id)
      × (find_job (step_job at job next payload result db).0 job.job_id ≡ some r)
unfolding step_job
step_job-ok at job next payload result db {r = r} h =
    let q = call_store-ok _ h in
    let (row, can, e) =
      transition_job-inverts at job.job_id job.revision next payload result db q in
    let same : next_row at job.job_id job.revision next payload result db row ≡ r =
      ok-injective (ap (λ x. x.1) (sym e) ∙ q) in
    let held : find_job
          (call_store (transition_job at job.job_id job.revision next payload result db)).0
          job.job_id
        ≡ some r =
      ap (λ d. find_job d job.job_id) (call_store-state _ ∙ ap (λ x. x.0) e)
      ∙ get_job-found _ _
          (get_job-transitioned at job.job_id job.revision next payload result db row can.found)
      ∙ ap some same in
    (
      ap (λ x. x.state) (sym same),
      ap (λ x. x.job_id) (sym same) ∙ found_id db job.job_id can.found,
      held,
    )

module _ (at later : Timestamp) (current target : JobRecord) where
  -- The reply has the state, and the table holds the reply.
  unfoldable pub IsHeld : JobState → Db × Result HubError JobRecord → Type 0
  IsHeld state x =
      (r : JobRecord) → x.1 ≡ ok r → (r.state ≡ state) × (find_job x.0 current.job_id ≡ some r)

  error-IsHeld : (state : JobState) (db : Db) (e : HubError) → IsHeld state (db, err e)
  unfolding IsHeld
  error-IsHeld state db e r h = absurd (err-ok h)

  kept-IsHeld :
      (job : JobRecord) (db : Db)
      → find_job db current.job_id ≡ some job
      → IsHeld job.state (db, ok job)
  unfolding IsHeld
  kept-IsHeld job db h r q =
      (ap (λ x. x.state) (sym (ok-injective q)), h ∙ ap some (ok-injective q))

  step-IsHeld :
      (time : Timestamp) (job : JobRecord) (next : JobState) (payload : Value)
      (result : Option Value) (db : Db)
      → job.job_id ≡ current.job_id
      → IsHeld next (step_job time job next payload result db)
  unfolding IsHeld
  step-IsHeld time job next payload result db same r h =
      let (state, id, held) = step_job-ok time job next payload result db h in
      (
        state,
        subst (λ i. find_job (step_job time job next payload result db).0 i ≡ some r) same held,
      )

  take_state-IsHeld :
      (job : JobRecord) (db : Db)
      → find_job db current.job_id ≡ some job
      → IsHeld
          (if can_transition_to job.state target.state then target.state else job.state)
          (take_state later target job db)
  unfolding take_state
  take_state-IsHeld job db h = elim (Bool-cases (can_transition_to job.state target.state)) [
    | inl can ↦
        subst (IsHeld _) (sym (choice_false _ _ (ap not can)))
          (rw can (step-IsHeld later job target.state _ _ db (found_id db current.job_id h)))
    | inr cannot ↦
        subst (IsHeld _) (sym (choice_true _ _ (ap not cannot))) (rw cannot (kept-IsHeld job db h))
  ]

  through :
      (c s : JobState)
      → needs_reconciling c s ≡ true
      → projected c s ≡ (if can_transition_to reconciling s then s else reconciling)
  unfolding needs_reconciling projected can_transition_to
  through c s h = let e = (eq_iff s outcome_unknown).0 (ground (arith, h)) in ground (arith, e, h)

  directly :
      (c s : JobState)
      → needs_reconciling c s ≡ false
      → projected c s ≡ (if can_transition_to c s then s else c)
  unfolding needs_reconciling projected
  directly c s h = ground (arith, h, eq_iff s outcome_unknown)

  same_state : (c s : JobState) → JobState.eq c s ≡ true → projected c s ≡ c
  unfolding projected
  same_state c s h = ground (arith, eq_iff c s)

  unchanged-IsHeld :
      (db : Db)
      → find_job db current.job_id ≡ some current
      → (s : JobState) → s ≡ current.state
      → IsHeld s (db, ok current)
  unchanged-IsHeld db h s e =
      subst (λ x. IsHeld x (db, ok current)) (sym e) (kept-IsHeld current db h)

  recast-IsHeld :
      (x : Db × Result HubError JobRecord) {s s' : JobState} → s ≡ s' → IsHeld s x → IsHeld s' x
  recast-IsHeld x e = subst (λ s. IsHeld s x) e

  follow-IsHeld :
      (db : Db)
      → find_job db current.job_id ≡ some current
      → IsHeld (projected current.state target.state) (
          continue_with
            (enter_reconciling at current target db).0
            (enter_reconciling at current target db).1
            (take_state later target))
  unfolding enter_reconciling
  follow-IsHeld db h =
      let goal : JobState = projected current.state target.state in
      choice_ind
        (λ (x : Db × Result HubError JobRecord).
          IsHeld goal (continue_with x.0 x.1 (take_state later target)))
        (needs_reconciling current.state target.state)
        (λ needed.
          continue_ind (IsHeld goal) (take_state later target) _ _ (λ e q. error-IsHeld goal _ e)
            (λ a q.
              let (state, id, held) = step_job-ok at current reconciling _ _ db q in
              recast-IsHeld _
                (ap (λ c. if can_transition_to c target.state then target.state else c) state
                  ∙ sym (through current.state target.state needed))
                (take_state-IsHeld a _ held)))
        (λ direct.
          continue_ind (IsHeld goal) (take_state later target) _ _ (λ e q. error-IsHeld goal _ e)
            (λ a q.
              recast-IsHeld _
                (ap (λ c. if can_transition_to c target.state then target.state else c)
                    (ap (λ x. x.state) (sym (ok-injective q)))
                  ∙ sym (directly current.state target.state direct))
                (take_state-IsHeld a db (h ∙ ap some (ok-injective q)))))

  -- When the hub takes over the executor's record of a job that it holds and succeeds, the reply
  -- is what the table then holds, in the state that `projected` names.
  pub project_target_job-follows :
      (db : Db) (r : JobRecord)
      → find_job db current.job_id ≡ some current
      → (project_target_job at later current target db).1 ≡ ok r
      → (r.state ≡ projected current.state target.state)
        × (find_job (project_target_job at later current target db).0 current.job_id ≡ some r)
  unfolding project_target_job IsHeld
  project_target_job-follows db r h =
      let goal : JobState = projected current.state target.state in
      let whole : IsHeld goal (project_target_job at later current target db) =
        continue_ind (IsHeld goal) _ db _ (λ e q. error-IsHeld goal db e)
          (λ u q.
            choice_ind (IsHeld goal) _
              (λ same. unchanged-IsHeld db h goal (same_state current.state target.state same))
              (λ other. follow-IsHeld db h)) in
      whole r
