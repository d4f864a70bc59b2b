-- ===== src/Tests/Locks.antt =====
-- Examples for the store's locks.
use maxops.Prelude.{
  ◌≡◌, refl, true, false, none, some, update_where, count_where, delete_where, List, [], ◌∷◌, ◌++◌,
  ok, str_eq, find?,
}
use maxops.Proto.Json.{object, end}
use maxops.Proto.Jobs.{JobRecord}
use maxops.Proto.JobState
use maxops.Store.Canonical.{canonical_json}
use maxops.Store.Db.{Db, ResourceRow}
use maxops.Store.Errors.{transact, to_i64, next_revision}
use maxops.Store.History.{no_rows, JobOperation, apply}
use maxops.Store.Jobs.{queued_job, find_job, get_job, insert_event, transition_job, transition_tx}
use maxops.Store.Resources.{
  new_resource, find_resource, acquire_tx, try_acquire_resource, release_resource,
}
use maxops.Store.Resources.Calls.{LockOperation, run_locks, is_kept}
use maxops.Store.Resources.Locking.{try_acquire_resource-excludes, release_resource-frees}
use maxops.Tests.Jobs.{new_job, no_hash}

abbrev two_jobs : Db
two_jobs = record no_rows {
  jobs = queued_job 1 "h" "j1" new_job ∷ queued_job 2 "h" "j2" new_job ∷ [];
}

abbrev others : List LockOperation
others =
    LockOperation.try_acquire 4 "host" "host-a" "j2"
    ∷ LockOperation.release "host" "host-a" "j2"
    ∷ LockOperation.on_jobs
        (JobOperation.transition 5 "j1" 1 JobState.dispatching (object end) none)
    ∷ LockOperation.release "host" "host-b" "j1"
    ∷ []

first_found : find_job two_jobs "j1" ≡ some (queued_job 1 "h" "j1" new_job)
unfolding find_job find? str_eq
first_found = refl

second_found : find_job two_jobs "j2" ≡ some (queued_job 2 "h" "j2" new_job)
unfolding find_job find? str_eq
second_found = refl

granted : (try_acquire_resource 3 "host" "host-a" "j1" two_jobs).1 ≡ ok true
unfolding try_acquire_resource acquire_tx transact find_resource find_job find? str_eq
granted = refl

others_keep : is_kept "host" "host-a" "j1" others ≡ true
unfolding str_eq
others_keep = refl

abbrev after : Db
after = run_locks no_hash others (try_acquire_resource 3 "host" "host-a" "j1" two_jobs).0

-- The job has been dispatched meanwhile.
abbrev dispatched : JobRecord
dispatched = record (queued_job 1 "h" "j1" new_job) {
  handle = record {
    job_id = "j1";
    state = JobState.dispatching;
    revision = 2;
    operation = "exec.run";
    host = "host-a";
  };
  updated_at = 5;
}

dispatched_found : find_job after "j1" ≡ some dispatched
unfolding try_acquire_resource acquire_tx release_resource transact find_resource find_job find?
    str_eq apply transition_job transition_tx get_job insert_event update_where count_where
    delete_where to_i64 next_revision canonical_json JobState.can_transition_to JobState.is_terminal
dispatched_found = refl

live : JobState.is_terminal JobState.dispatching ≡ false
unfolding JobState.is_terminal
live = refl

try_acquire_resource-excludes_example :
    try_acquire_resource 9 "host" "host-a" "j2" after ≡ (after, ok (str_eq "j1" "j2"))
try_acquire_resource-excludes_example =
    try_acquire_resource-excludes no_hash "host" "host-a" "j1" 3 two_jobs others first_found granted
      others_keep dispatched_found live 9 "j2"

-- Once the job has failed, the other job takes the lock over.
abbrev failing : List LockOperation
failing =
    LockOperation.on_jobs (JobOperation.transition 5 "j1" 1 JobState.failed (object end) none) ∷ []

taken_over :
    (try_acquire_resource 9 "host" "host-a" "j2"
      (run_locks no_hash failing (try_acquire_resource 3 "host" "host-a" "j1" two_jobs).0)).1
    ≡ ok true
unfolding try_acquire_resource acquire_tx release_resource transact find_resource find_job find?
    str_eq apply transition_job transition_tx get_job insert_event update_where count_where
    delete_where to_i64 next_revision canonical_json JobState.can_transition_to JobState.is_terminal
taken_over = refl

abbrev a_row : ResourceRow
a_row = new_resource 3 "host" "host-a" "j1"

abbrev locked : Db
locked = record two_jobs { resources = a_row ∷ [] }

locked_found : find_resource locked "host" "host-a" ≡ some a_row
unfolding find_resource find? str_eq
locked_found = refl

abbrev freed : Db
freed = (release_resource "host" "host-a" "j1" locked).0

release_resource-frees_example : try_acquire_resource 5 "host" "host-a" "j2" freed ≡ (
  record freed { resources = freed.resources ++ new_resource 5 "host" "host-a" "j2" ∷ [] },
  ok true,
)
unfolding find? find_job
release_resource-frees_example =
    release_resource-frees "host" "host-a" "j1" locked (refl, tt) locked_found refl refl refl 5 "j2"
      second_found
