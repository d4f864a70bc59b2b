-- ===== src/Store/Resources/Calls.antt =====
-- Sequences of calls of `try_acquire_resource` and `release_resource` of
-- crates/maxops-store/src/lib.rs, among which jobs are submitted, accepted, moved and cancelled.
use mathlib.Core.Option.{some-injective}
use maxops.Prelude.{
  String, ◌≡◌, refl, sym, ap, ◌∙◌, Bool, Bool-cases, true, false, not, ◌&&◌, some, List, [], ◌∷◌,
  ◌>>◌, ok, inl, inr, arith, ensure, str_eq, second-ok,
}
use maxops.Proto.Ids.{JobId}
use maxops.Proto.Json.{Value}
use maxops.Proto.Jobs.{Timestamp, JobRecord}
use maxops.Proto.JobState
use maxops.Proto.JobState.Graph.{terminal_closed}
use maxops.Proto.Names.{is_empty}
use maxops.Store.Canonical.{job_spec_hash}
use maxops.Store.Db.{Db}
use maxops.Store.Errors.{empty_resource, transact_inv}
use maxops.Store.Jobs.{
  find_job, validate_new_job, accept_job, transition_job, request_cancel, transition_tx, cancel_tx,
  insert_event,
}
use maxops.Store.Jobs.Inversion.{transition_tx-ok, cancel_tx-ok, accept_tx-ok}
use maxops.Store.Jobs.Evolution.{JobsEvolve, JobsEvolve-refl, JobsEvolve-same, JobsEvolve-trans}
use maxops.Store.Submit.{submit_linked_job}
use maxops.Store.Submit.Inversion.{submit_tx-ok}
use maxops.Store.History
use maxops.Store.History.{JobOperation, apply-evolves}
use maxops.Store.Resources.{acquire_tx, try_acquire_resource, release_resource}
use maxops.Store.Resources.Exclusion.{Acquired, acquire_tx-ok}

-- A call with its arguments; `on_jobs` is one of the operations on jobs.
pub data LockOperation : Type 0 where
  try_acquire : Timestamp → String → String → JobId → LockOperation
  release : String → String → JobId → LockOperation
  on_jobs : JobOperation → LockOperation

abbrev pub apply_lock : (Value → String) → LockOperation → Db → Db
apply_lock fingerprint (LockOperation.try_acquire at kind key owner) db =
    (try_acquire_resource at kind key owner db).0
apply_lock fingerprint (LockOperation.release kind key owner) db =
    (release_resource kind key owner db).0
apply_lock fingerprint (LockOperation.on_jobs op) db = History.apply fingerprint db op

abbrev pub run_locks : (Value → String) → List LockOperation → Db → Db
run_locks fingerprint [] db = db
run_locks fingerprint (op ∷ ops) db = run_locks fingerprint ops (apply_lock fingerprint op db)

-- No call in the list releases the lock in the name of the owner.
abbrev pub is_kept : String → String → JobId → List LockOperation → Bool
is_kept kind key owner [] = true
is_kept kind key owner (LockOperation.try_acquire _ _ _ _ ∷ ops) = is_kept kind key owner ops
is_kept kind key owner (LockOperation.on_jobs _ ∷ ops) = is_kept kind key owner ops
is_kept kind key owner (LockOperation.release kind' key' owner' ∷ ops) =
    not (str_eq kind' kind && str_eq key' key && str_eq owner' owner) && is_kept kind key owner ops

pub tx_body :
    (at : Timestamp) (kind key : String) (owner : JobId) (db : Db) {db' : Db} {b : Bool}
    → ensure (not (is_empty kind) && not (is_empty key)) empty_resource
        >> acquire_tx at kind key owner db
      ≡ ok (db', b)
    → acquire_tx at kind key owner db ≡ ok (db', b)
tx_body at kind key owner db h = ground (arith, h)

-- An attempt writes no job.
Acquired-jobs :
    (at : Timestamp) (kind key : String) (owner : JobId) (db : Db) {db' : Db} {b : Bool}
    → Acquired at kind key owner db db' b
    → db'.jobs ≡ db.jobs
Acquired-jobs at kind key owner db (Acquired.own _ _ _ e _) = ap (λ d. d.jobs) e
Acquired-jobs at kind key owner db (Acquired.busy _ _ _ _ _ _ e _) = ap (λ d. d.jobs) e
Acquired-jobs at kind key owner db (Acquired.stale _ _ _ _ _ _ e _) = ap (λ d. d.jobs) e
Acquired-jobs at kind key owner db (Acquired.unheld _ e _) = ap (λ d. d.jobs) e

module _ (fingerprint : Value → String) where
  apply_lock-evolves : (op : LockOperation) (db : Db) → JobsEvolve db (apply_lock fingerprint op db)
  unfolding try_acquire_resource release_resource
  apply_lock-evolves (LockOperation.try_acquire at kind key owner) db = JobsEvolve-same (
      transact_inv (λ d. d.jobs ≡ db.jobs) db _ _ refl
        λ db' b q.
          Acquired-jobs at kind key owner db
            (acquire_tx-ok at kind key owner db (tx_body at kind key owner db q)))
  apply_lock-evolves (LockOperation.release kind key owner) db = JobsEvolve-same refl
  apply_lock-evolves (LockOperation.on_jobs op) db = apply-evolves fingerprint db op

  pub run_locks-evolves :
      (ops : List LockOperation) (db : Db) → JobsEvolve db (run_locks fingerprint ops db)
  run_locks-evolves [] db = JobsEvolve-refl db
  run_locks-evolves (op ∷ ops) db =
      JobsEvolve-trans (apply_lock-evolves op db)
        (run_locks-evolves ops (apply_lock fingerprint op db))

  -- Operations on jobs write no lock.
  pub apply-resources :
      (db : Db) (op : JobOperation) → (History.apply fingerprint db op).resources ≡ db.resources
  unfolding History.apply submit_linked_job accept_job transition_job request_cancel insert_event
  apply-resources db (JobOperation.submit at key id new link) =
      transact_inv (λ d. d.resources ≡ db.resources) db _ _ refl
        λ db' receipt q.
          elim (submit_tx-ok at (job_spec_hash fingerprint new) key id new link db
            (second-ok (validate_new_job key new) q)) [
              | inl (_, _, _, e, _) ↦ ap (λ d. d.resources) e
              | inr (changes, _, absent, e, _) ↦ ap (λ d. d.resources) e
            ]
  apply-resources db (JobOperation.accept at id new) =
      transact_inv (λ d. d.resources ≡ db.resources) db _ _ refl
        λ db' created q.
          elim (accept_tx-ok at (job_spec_hash fingerprint new) id new db
            (second-ok (validate_new_job "upstream-job-id" new) q)) [
              | inl (_, _, _, e, _) ↦ ap (λ d. d.resources) e
              | inr (absent, e, _) ↦ ap (λ d. d.resources) e
            ]
  apply-resources db (JobOperation.transition at id expected next payload result) =
      transact_inv (λ d. d.resources ≡ db.resources) db
        (transition_tx at id expected next payload result db) _ refl
        λ db' _ q.
          let (row, found, _, allowed, _, e) =
            transition_tx-ok at id expected next payload result db q in
          ap (λ d. d.resources) e
  apply-resources db (JobOperation.cancel at id expected reason) =
      transact_inv (λ d. d.resources ≡ db.resources) db (cancel_tx at id expected reason db) _ refl
        λ db' _ q.
          let (row, found, _, live, _, e) = cancel_tx-ok at id expected reason db q in
          ap (λ d. d.resources) e

-- A job that is not terminal in the end was not terminal before.
pub live_before :
    (id : JobId) {d e : Db} {r r' : JobRecord}
    → JobsEvolve d e
    → find_job d id ≡ some r
    → find_job e id ≡ some r'
    → JobState.is_terminal r'.state ≡ false
    → JobState.is_terminal r.state ≡ false
live_before id {r = r} {r' = r'} evolves found found' live =
    let (s, there, evolved) = evolves.job id r found in
    let same : s ≡ r' = some-injective _ _ (sym there ∙ found') in
    elim (Bool-cases (JobState.is_terminal r.state)) [
      | inr n ↦ n
      | inl over ↦ absurd (ground (arith, (terminal_closed over evolved.state).0, same, live))
    ]
