-- ===== src/Tests/Jobs.antt =====
-- Examples for the store's jobs.
use maxops.Prelude.{
  false, Option, if◌then◌else◌, ℕ, ◌+◌, ◌≤◌, ◌↔◌, String, true, ◌≡◌, refl, none, some, List, [],
  ◌∷◌, ok, err, is_ok, str_eq, codes, all_codes, find?, count_where, update_where,
}
use maxops.Proto.Json.{Value, object, end, null}
use maxops.Proto.Jobs.{NewJob, JobRecord}
use maxops.Proto.JobState
use maxops.Proto.JobState.{JobState}
use maxops.Proto.Names.{bounded, valid_host}
use maxops.Store.Db.{Db}
use maxops.Store.Errors.{
  job_revision_changed, idempotency_conflict, i64_max, StoreError, transact, next_revision, to_i64,
}
use maxops.Store.Canonical.{canonical_json, job_spec_hash}
use maxops.Store.Jobs.{
  transition_job, request_cancel, find_job, get_job, queued_job, validate_new_job, transition_tx,
  cancel_tx, insert_event, insert_job,
}
use maxops.Store.Jobs.Cas.{transition_job_iff, next_row}
use maxops.Store.Jobs.Evolution.{JobsEvolve}
use maxops.Store.History.{
  JobOperation, submit, transition, cancel, no_rows, run, IsSound, run-IsSound, run-evolves, apply,
}
use maxops.Store.Jobs.Stale.{transition_job-excludes}
use maxops.Store.Submit.Idempotency.{submit_linked_job-idempotent}
use maxops.Store.Submit.{submit_linked_job, submit_tx}

abbrev pub new_job : NewJob
new_job = record {
  principal = "automation-a";
  host = "host-a";
  operation = "exec.run";
  spec_version = 1;
  spec = object end;
  policy_version = "policy-1";
  deadline = none;
}

abbrev other_job : NewJob
other_job = record new_job { operation = "deploy.run" }

-- A stand-in for the hash of a value's bytes.
abbrev pub no_hash : Value → String
no_hash v = "h"

abbrev a_key : String
a_key = "k1"

abbrev script : List JobOperation
script =
    submit 1 a_key "j1" new_job none
    ∷ submit 2 a_key "j2" new_job none
    ∷ transition 3 "j1" 1 JobState.dispatching (object end) none
    ∷ transition 4 "j1" 1 JobState.running (object end) none
    ∷ cancel 5 "j1" 2 "stop"
    ∷ transition 6 "j1" 3 JobState.cancelled (object end) (some null)
    ∷ transition 7 "j1" 4 JobState.running (object end) none
    ∷ []

-- One job is accepted; the second transition and the last are refused.
script_ends :
    find_job (run no_hash no_rows script) "j1"
    ≡ some (record (queued_job 1 "h" "j1" new_job) {
      handle = record {
        job_id = "j1";
        state = JobState.cancelled;
        revision = 4;
        operation = "exec.run";
        host = "host-a";
      };
      updated_at = 6;
      cancel_requested = true;
      result = some null;
    })
unfolding run apply submit_linked_job submit_tx transition_job transition_tx request_cancel
    cancel_tx find_job transact insert_event insert_job validate_new_job valid_host find?
    update_where count_where codes all_codes str_eq to_i64 next_revision canonical_json
    job_spec_hash JobState.can_transition_to JobState.is_terminal bounded get_job
script_ends = refl

run-IsSound_example : IsSound (run no_hash no_rows script)
run-IsSound_example = run-IsSound no_hash script

run-evolves_example :
    JobsEvolve (run no_hash no_rows script) (run no_hash (run no_hash no_rows script) script)
run-evolves_example = run-evolves no_hash (run no_hash no_rows script) script

abbrev pub one_job : Db
one_job = record no_rows { jobs = queued_job 1 "h" "j1" new_job ∷ [] }

pub one_job_found : find_job one_job "j1" ≡ some (queued_job 1 "h" "j1" new_job)
unfolding find_job find? str_eq
one_job_found = refl

transition_job_iff_example :
    ((is_ok (transition_job 2 "j1" 1 JobState.dispatching null none one_job).1 ≡ true) ↔ (
      (◌≡◌ {A = ℕ} 1 1)
      × (JobState.can_transition_to JobState.queued JobState.dispatching ≡ true)
      × (1 + 1 ≤ i64_max)))
    × ((r : JobRecord)
        → (transition_job 2 "j1" 1 JobState.dispatching null none one_job).1 ≡ ok r
        → r
          ≡ next_row 2 "j1" 1 JobState.dispatching null none one_job
              (queued_job 1 "h" "j1" new_job))
    × ((e : StoreError)
        → (transition_job 2 "j1" 1 JobState.dispatching null none one_job).1 ≡ err e
        → (transition_job 2 "j1" 1 JobState.dispatching null none one_job).0 ≡ one_job)
unfolding find?
transition_job_iff_example =
    transition_job_iff 2 "j1" 1 JobState.dispatching null none one_job
      (queued_job 1 "h" "j1" new_job) (refl, tt) one_job_found

abbrev after_dispatch : Db
after_dispatch = (transition_job 2 "j1" 1 JobState.dispatching null none one_job).0

dispatched :
    (transition_job 2 "j1" 1 JobState.dispatching null none one_job).1
    ≡ ok (next_row 2 "j1" 1 JobState.dispatching null none one_job (queued_job 1 "h" "j1" new_job))
unfolding transition_job transition_tx transact find_job find? update_where count_where str_eq
    to_i64 next_revision insert_event get_job JobState.can_transition_to
dispatched = refl

transition_job-excludes_example :
    ((at' : ℕ) (next' : JobState) (payload' : Value) (result' : Option Value)
      → transition_job at' "j1" 1 next' payload' result' after_dispatch
        ≡ (after_dispatch, err job_revision_changed))
    × ((at' : ℕ) (reason : String)
        → bounded 1024 reason ≡ true
        → request_cancel at' "j1" 1 reason after_dispatch
          ≡ (after_dispatch, err job_revision_changed))
transition_job-excludes_example =
    transition_job-excludes 2 "j1" 1 JobState.dispatching null none one_job dispatched

abbrev after_submit : Db
after_submit = (submit_linked_job no_hash 1 a_key "j1" new_job none no_rows).0

submitted_once :
    (submit_linked_job no_hash 1 a_key "j1" new_job none no_rows).1
    ≡ ok (record { job = queued_job 1 "h" "j1" new_job; created = true })
unfolding submit_linked_job submit_tx transact validate_new_job valid_host bounded codes all_codes
    find_job find? str_eq insert_event insert_job get_job canonical_json job_spec_hash
submitted_once = refl

other_job_valid : validate_new_job a_key other_job ≡ ok tt
unfolding validate_new_job valid_host bounded codes all_codes
other_job_valid = refl

submit_linked_job-idempotent_example :
    submit_linked_job no_hash 9 a_key "j9" other_job none after_submit ≡ (
      after_submit,
      if str_eq (job_spec_hash no_hash new_job) (job_spec_hash no_hash other_job)
          then ok (record { job = queued_job 1 "h" "j1" new_job; created = false })
          else err idempotency_conflict,
    )
submit_linked_job-idempotent_example =
    submit_linked_job-idempotent no_hash 1 a_key "j1" new_job none no_rows submitted_once 9 "j9"
      other_job none refl other_job_valid
