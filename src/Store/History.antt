-- ===== src/Store/History.antt =====
-- Any sequence of the operations on jobs of crates/maxops-store/src/lib.rs, refused or committed,
-- in the order in which the store's writer lock lets them run.
use maxops.Prelude.{select_where, find?, ℕ, String, refl, Option, List, [], ◌∷◌}
use maxops.Proto.Ids.{JobId}
use maxops.Proto.Json.{Value}
use maxops.Proto.Jobs.{Timestamp, NewJob}
use maxops.Proto.JobState.{JobState}
use maxops.Store.Db.{Db}
use maxops.Store.Jobs.{find_job, accept_job, transition_job, request_cancel}
use maxops.Store.Jobs.Log.{IsReplayed, replay}
use maxops.Store.Jobs.Replay.{
  accept_job-IsReplayed, transition_job-IsReplayed, request_cancel-IsReplayed,
}
use maxops.Store.Jobs.Evolution.{JobsEvolve, JobsEvolve-refl, JobsEvolve-trans}
use maxops.Store.Jobs.Steps.{accept_job-evolves, transition_job-evolves, request_cancel-evolves}
use maxops.Store.Jobs.Keys.{
  HasUniqueJobs, accept_job-HasUniqueJobs, transition_job-HasUniqueJobs,
  request_cancel-HasUniqueJobs,
}
use maxops.Store.Changes.{ChangeJobLink}
use maxops.Store.Submit.{submit_linked_job}
use maxops.Store.Submit.Laws.{
  submit_linked_job-IsReplayed, submit_linked_job-HasUniqueJobs, submit_linked_job-evolves,
}

pub data JobOperation : Type 0 where
  submit : Timestamp → String → JobId → NewJob → Option ChangeJobLink → JobOperation
  accept : Timestamp → JobId → NewJob → JobOperation
  transition : Timestamp → JobId → ℕ → JobState → Value → Option Value → JobOperation
  cancel : Timestamp → JobId → ℕ → String → JobOperation

abbrev pub no_rows : Db
no_rows = record {
  jobs = [];
  idempotency = [];
  job_events = [];
  job_sequence = 0;
  resources = [];
  workspaces = [];
  changes = [];
  episodes = [];
  events = [];
  event_sequence = 0;
  subscriptions = [];
  deliveries = [];
  remediations = [];
  observations = [];
  observation_sequence = 0;
}

pub record IsSound (db : Db) : Type 0 where
  pub replayed : IsReplayed db
  pub unique : HasUniqueJobs db

module _ (fingerprint : Value → String) where
  unfoldable pub apply : Db → JobOperation → Db
  apply db (submit at key id new link) = (submit_linked_job fingerprint at key id new link db).0
  apply db (accept at id new) = (accept_job fingerprint at id new db).0
  apply db (transition at id expected next payload result) =
      (transition_job at id expected next payload result db).0
  apply db (cancel at id expected reason) = (request_cancel at id expected reason db).0

  unfoldable pub run : Db → List JobOperation → Db
  run db [] = db
  run db (o ∷ os) = run (apply db o) os

  apply-IsSound : (db : Db) (o : JobOperation) → IsSound db → IsSound (apply db o)
  unfolding apply
  apply-IsSound db (submit at key id new link) s = record {
    replayed = submit_linked_job-IsReplayed at id db fingerprint key new link s.replayed;
    unique = submit_linked_job-HasUniqueJobs at id db fingerprint key new link s.unique;
  }
  apply-IsSound db (accept at id new) s = record {
    replayed = accept_job-IsReplayed at id db s.replayed fingerprint new;
    unique = accept_job-HasUniqueJobs at id db s.unique fingerprint new;
  }
  apply-IsSound db (transition at id expected next payload result) s = record {
    replayed = transition_job-IsReplayed at id db s.replayed expected next payload result;
    unique = transition_job-HasUniqueJobs at id db s.unique expected next payload result;
  }
  apply-IsSound db (cancel at id expected reason) s = record {
    replayed = request_cancel-IsReplayed at id db s.replayed expected reason;
    unique = request_cancel-HasUniqueJobs at id db s.unique expected reason;
  }

  run_from-IsSound : (db : Db) (os : List JobOperation) → IsSound db → IsSound (run db os)
  unfolding run
  run_from-IsSound db [] s = s
  run_from-IsSound db (o ∷ os) s = run_from-IsSound (apply db o) os (apply-IsSound db o s)

  IsSound-no_rows : IsSound no_rows
  unfolding replay find_job select_where find?
  IsSound-no_rows = record { replayed = record { replayed = λ id. refl }; unique = tt }

  -- From the empty store, whatever operations are attempted: every job's state, revision,
  -- cancellation mark and times of creation and of the last change are what its events add up to, each of them an allowed step, and no two
  -- rows have the same identifier.
  pub run-IsSound : (os : List JobOperation) → IsSound (run no_rows os)
  run-IsSound os = run_from-IsSound no_rows os IsSound-no_rows

  pub apply-evolves : (db : Db) (o : JobOperation) → JobsEvolve db (apply db o)
  unfolding apply
  apply-evolves db (submit at key id new link) =
      submit_linked_job-evolves at id db fingerprint key new link
  apply-evolves db (accept at id new) = accept_job-evolves at id db fingerprint new
  apply-evolves db (transition at id expected next payload result) =
      transition_job-evolves at id db expected next payload result
  apply-evolves db (cancel at id expected reason) = request_cancel-evolves at id db expected reason

  -- From any store, whatever operations are attempted, every job stays: its identity,
  -- specification and hash are fixed, its state moves along the table of transitions, its revision
  -- grows and tells every change, a settled job is never changed, a cancellation request never
  -- forgotten.
  pub run-evolves : (db : Db) (os : List JobOperation) → JobsEvolve db (run db os)
  unfolding run
  run-evolves db [] = JobsEvolve-refl db
  run-evolves db (o ∷ os) = JobsEvolve-trans (apply-evolves db o) (run-evolves (apply db o) os)
