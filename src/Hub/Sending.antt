-- ===== src/Hub/Sending.antt =====
-- Which jobs `dispatch` of crates/maxops-hub/src/lib.rs sends to an executor.
use maxops.Prelude.{
  contains, ◌≤◌, ◌<◌, ◌≢◌, subst, ltb, is_ok, err, Bool, true, false, not, String, Option, some,
  List, [], ◌∷◌, Result, ok, ◌≡◌, refl, sym, ap, ◌∙◌, arith, ◌⊎◌, inl, inr, Bool-cases,
  eq_of_str_eq,
}
use maxops.Prelude.Programs.{continue_with, continue_ind, continue_ok, choice_ind, choice_true}
use maxops.Proto.Ids.{JobId}
use maxops.Proto.Json.{Value}
use maxops.Proto.Jobs.{Timestamp, JobRecord}
use maxops.Proto.JobState
use maxops.Proto.JobState.{JobState, queued, cancelled}
use maxops.Proto.Deployments.{DeploymentJobSpec}
use maxops.Store.Jobs.{find_job, get_job, transition_job}
use maxops.Hub.Errors.{HubError}
use maxops.Hub.Projection.{call_store, step_job}
use maxops.Hub.World.{World, Fleet, on_db, query}
use maxops.Hub.Following.{step_job-ok, found_id, call_store-ok, call_store-state}
use maxops.Store.Db.{Db}
use maxops.Store.Errors.{StoreError, Outcome, i64_max}
use maxops.Store.Jobs.Keys.{HasUniqueJobs}
use maxops.Store.Jobs.Cas.{transition_job_iff, transition_job-rejects}
use maxops.Hub.Access.{App, Principal, manage, permits, any_permits, dispatch_authorized}
use maxops.Hub.Dispatch.{dispatch, dispatch_job, drop_job, Next, stop}

call_store-err :
    {A : Type 0} (r : Db × Outcome A) {e : HubError}
    → (call_store r).1 ≡ err e
    → (x : StoreError) × (r.1 ≡ err x)
unfolding call_store
call_store-err (db, ok a) h = cc
call_store-err (db, err x) h = (x, refl)

-- Of a queued job that is read from the same tables, a transition to `cancelled` is refused only when
-- there is no next revision.
module _ (at : Timestamp) (job : JobRecord) (payload : Value) (result : Option Value) (db : Db)
    (unique : HasUniqueJobs db) (found : find_job db job.job_id ≡ some job) where
  cancels :
      job.state ≡ queued
      → job.revision < i64_max
      → is_ok (transition_job at job.job_id job.revision cancelled payload result db).1 ≡ true
  unfolding JobState.can_transition_to
  cancels waits fits =
      (transition_job_iff at job.job_id job.revision cancelled payload result db job unique
          found).0.1
        (refl, rw waits refl, omega (arith, fits))

  step_job-refused :
      {e : HubError}
      → job.state ≡ queued
      → (step_job at job cancelled payload result db).1 ≡ err e
      → (i64_max ≤ job.revision) × ((step_job at job cancelled payload result db).0 ≡ db)
  unfolding step_job
  step_job-refused waits h =
      let (e, q) = call_store-err _ h in
      (
        elim (Bool-cases (ltb job.revision i64_max)) [
          | inl t ↦ absurd (ground (arith, q, cancels waits (ground (arith, t))))
          | inr f ↦ ground (arith, f)
        ],
        call_store-state _
            ∙ transition_job-rejects at job.job_id job.revision cancelled payload result db q,
      )

  step_job-fits :
      {r : JobRecord}
      → (step_job at job cancelled payload result db).1 ≡ ok r
      → job.revision < i64_max
  unfolding step_job
  step_job-fits h =
      let good =
        (transition_job_iff at job.job_id job.revision cancelled payload result db job unique
            found).0.0
          (rw (call_store-ok _ h) refl) in
      omega (arith, good.2)

module _ {O : Type 0} (fleet : Fleet O) (authorized : JobRecord → Bool) where
  pub found_query :
      (id : JobId) (w : World O) {job : JobRecord}
      → find_job w.db id ≡ some job
      → query fleet (λ db. get_job db id) w ≡ (w, ok job)
  unfolding query on_db get_job call_store
  found_query id w found = rw found refl

  dispatch-drops :
      (id : JobId) (w : World O) (job : JobRecord)
      → find_job w.db id ≡ some job
      → authorized job ≡ false
      → dispatch fleet authorized id w ≡ drop_job fleet authorized job w
  unfolding dispatch dispatch_job
  dispatch-drops id w job found denied =
      ap (λ x. continue_with x.0 x.1 (dispatch_job fleet authorized)) (found_query id w found)
      ∙ continue_ok (dispatch_job fleet authorized) w refl
      ∙ choice_true _ _ (ap not denied)

  -- How the call for a job that is not permitted ends: a job that is not queued is left alone; one
  -- that is queued is cancelled, if there is room for its next revision, and else is left too.
  unfoldable pub IsDropped : World O → JobRecord → World O × Result HubError Next → Type 0
  IsDropped w job x =
      (x.0.outside ≡ w.outside)
      × (((job.state ≢ queued) × (x ≡ (w, ok stop)))
          ⊎ (((job.state ≡ queued)
                × (i64_max ≤ job.revision)
                × (x.0.db ≡ w.db)
                × ((e : HubError) × (x.1 ≡ err e)))
              ⊎ ((job.state ≡ queued)
                  × (job.revision < i64_max)
                  × (x.1 ≡ ok stop)
                  × ((r : JobRecord) × (find_job x.0.db job.job_id ≡ some r)
                      × (r.state ≡ cancelled)))))

  drop_job-IsDropped :
      (w : World O) (job : JobRecord)
      → HasUniqueJobs w.db
      → find_job w.db job.job_id ≡ some job
      → IsDropped w job (drop_job fleet authorized job w)
  unfolding drop_job on_db IsDropped
  drop_job-IsDropped w job unique found =
      choice_ind (IsDropped w job) _
        (λ is_queued.
          let waits = (JobState.eq_iff job.state queued).0 is_queued in
          continue_ind (IsDropped w job) _ _ _
            (λ e q.
              let (full, same) = step_job-refused _ job _ _ w.db unique found waits q in
              (refl, inr (inl (waits, full, same, (e, refl)))))
            (λ j q.
              let (state, id, held) = step_job-ok _ job cancelled _ _ w.db q in
              (
                refl,
                inr (
                    inr
                      (waits, step_job-fits _ job _ _ w.db unique found q, refl, (j, held, state))),
              )))
        (λ other.
          (refl, inl ((λ e. ground (arith, other, (JobState.eq_iff job.state queued).1 e)), refl)))

  -- A job that the configuration no longer permits is not sent to an executor, nor is its executor
  -- asked about it, however the call ends. When identifiers are unique, a job that is not queued is
  -- left alone, and one that is queued is cancelled, unless its revision is the greatest there is:
  -- then the call fails and changes nothing.
  pub dispatch-denied :
      (id : JobId) (w : World O) (job : JobRecord)
      → HasUniqueJobs w.db
      → find_job w.db id ≡ some job
      → authorized job ≡ false
      → IsDropped w job (dispatch fleet authorized id w)
  dispatch-denied id w job unique found denied =
      subst (IsDropped w job) (sym (dispatch-drops id w job found denied))
        (drop_job-IsDropped w job unique (ap (find_job w.db) (found_id w.db id found) ∙ found))

-- The principal stands in the list.
unfoldable pub Among : Principal → List Principal → Type 0
Among p [] = ⊥
Among p (q ∷ clients) = (p ≡ q) ⊎ Among p clients

module _ (unit_of : Value → Option String) (spec_of : Value → Option DeploymentJobSpec)
    (capability_of : String → Option String) (app : App) (job : JobRecord) where
  permitting :
      (clients : List Principal)
      → any_permits unit_of spec_of capability_of app job clients ≡ true
      → (p : Principal) × Among p clients × (permits unit_of spec_of capability_of app job p ≡ true)
  unfolding any_permits Among
  permitting [] h = cc
  permitting (p ∷ clients) h = elim (Bool-cases (permits unit_of spec_of capability_of app job p)) [
    | inl granted ↦ (p, inl refl, granted)
    | inr denied ↦
        let (q, among, granted) = permitting clients (ground (arith, h, denied)) in
        (q, inr among, granted)
  ]

  permits_parts :
      (p : Principal)
      → permits unit_of spec_of capability_of app job p ≡ true
      → (p.name ≡ job.principal) × (p.access ≡ manage) × (contains p.hosts job.host ≡ true)
  unfolding permits
  permits_parts p h = ground (arith, h, eq_of_str_eq p.name job.principal)

  -- A job that may be dispatched is the job of a configured client that may manage and is granted
  -- the job's host.
  pub dispatch_authorized-grants :
      dispatch_authorized unit_of spec_of capability_of app job ≡ true
      → (p : Principal) × Among p app.clients
        × (p.name ≡ job.principal)
        × (p.access ≡ manage)
        × (contains p.hosts job.host ≡ true)
  unfolding dispatch_authorized
  dispatch_authorized-grants h =
      let (p, among, granted) = permitting app.clients h in
      let (name, access, host) = permits_parts p granted in (p, among, name, access, host)
