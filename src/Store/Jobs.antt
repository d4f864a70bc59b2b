-- ===== src/Store/Jobs.antt =====
-- Jobs: acceptance, transitions, cancellation and reads, as in crates/maxops-store/src/lib.rs
-- (`accept_job`, `transition_job`, `request_cancel`, `get_job`, `get_owned_job`,
-- `get_idempotent_job`, `validate_new_job`). Each takes the time `at` that the
-- code reads from the clock.
pub mod Inversion
pub mod Log
pub mod Rows
pub mod Replay
pub mod Evolution
pub mod Steps
pub mod Keys
pub mod Cas
pub mod Accepting
pub mod Stale
use maxops.Prelude.{
  ℕ, suc, String, Bool, true, false, not, ◌&&◌, ◌||◌, Option, none, some, [], ◌∷◌, ◌++◌, ok, ◌>>=◌,
  ◌>>◌, ensure, ok_or, ltb, ◌==◌, str_eq, if◌then◌else◌, find?, update_where, count_where, codes,
  all_codes, is_some,
}
use mathlib.Core.Option
use maxops.Proto.Ids.{JobId}
use maxops.Proto.Json.{Value, object, member, end, string, is_object}
use maxops.Proto.Jobs.{Timestamp, NewJob, JobRecord}
use maxops.Proto.JobState
use maxops.Proto.JobState.{JobState}
use maxops.Proto.JobEventKind.{JobEventKind}
use maxops.Proto.Names.{bounded, valid_host, is_ascii_graphic}
use maxops.Store.Canonical.{canonical_json, job_spec_hash}
use maxops.Store.Db.{Db, IdempotencyRow}
use maxops.Store.Errors.{
  Outcome, constraint, invalid_idempotency_key, invalid_principal, invalid_host, invalid_operation,
  invalid_spec_version, invalid_policy_version, spec_not_object, job_id_conflict, job_not_found,
  job_revision_changed, invalid_job_transition, job_revision_overflow, terminal_job,
  invalid_cancel_reason, to_i64, next_revision, transact,
}

-- `WHERE id = ?`
abbrev pub has_id : JobId → JobRecord → Bool
has_id id r = str_eq r.job_id id

unfoldable pub find_job : Db → JobId → Option JobRecord
find_job db id = find? (has_id id) db.jobs

unfoldable pub get_job : Db → JobId → Outcome JobRecord
get_job db id = ok_or (find_job db id) job_not_found

unfoldable pub get_owned_job : Db → String → JobId → Outcome JobRecord
get_owned_job db principal id = do
  job ← get_job db id
  ensure (str_eq job.principal principal) job_not_found
  ok job

abbrev pub has_key : String → String → IdempotencyRow → Bool
has_key principal key r = str_eq r.principal principal && str_eq r.key key

unfoldable pub get_idempotent_job : Db → String → String → Outcome (Option JobRecord)
get_idempotent_job db principal key = elim (find? (has_key principal key) db.idempotency) [
  | none ↦ ok none
  | some row ↦ do job ← get_job db row.job_id; ok (some job)
]

-- `validate_new_job`
unfoldable pub validate_new_job : String → NewJob → Outcome (Unit {0})
validate_new_job key new = do
  ensure (bounded 128 key && all_codes is_ascii_graphic (codes key)) invalid_idempotency_key
  ensure (bounded 128 new.principal) invalid_principal
  ensure (valid_host new.host) invalid_host
  ensure (bounded 128 new.operation) invalid_operation
  ensure (ltb 0 new.spec_version) invalid_spec_version
  ensure (bounded 128 new.policy_version) invalid_policy_version
  ensure (is_object new.spec) spec_not_object

-- The row that the INSERT of a new job writes.
abbrev pub queued_job : Timestamp → String → JobId → NewJob → JobRecord
queued_job at spec_hash id new = record {
  handle = record {
    job_id = id;
    state = JobState.queued;
    revision = 1;
    operation = new.operation;
    host = new.host;
  };
  principal = new.principal;
  spec_version = new.spec_version;
  spec = canonical_json new.spec;
  spec_hash = spec_hash;
  policy_version = new.policy_version;
  created_at = at;
  updated_at = at;
  deadline = new.deadline;
  cancel_requested = false;
  result = none;
}

-- INSERT INTO jobs: the primary key refuses a second row with the identifier.
unfoldable pub insert_job : JobRecord → Db → Outcome Db
insert_job row db = do
  ensure (not (is_some (find_job db row.job_id))) constraint
  ok (record db { jobs = db.jobs ++ row ∷ [] })

-- INSERT INTO job_events
unfoldable pub insert_event : JobId → JobEventKind → JobState → Timestamp → Value → Db → Db
insert_event id kind state at payload db = record db {
  job_events =
      db.job_events
      ++ (record {
        sequence = suc db.job_sequence;
        job_id = id;
        kind = kind;
        state = state;
        occurred_at = at;
        payload = payload;
      })
        ∷ [];
  job_sequence = suc db.job_sequence;
}

pub record SubmitResult : Type 0 where
  pub job : JobRecord
  pub created : Bool

abbrev pub submitted : Bool → JobId → Db → Outcome SubmitResult
submitted created id db = do job ← get_job db id; ok (record { job = job; created = created })

unfoldable pub accept_tx : Timestamp → String → JobId → NewJob → Db → Outcome (Db × Bool)
unfolding insert_job insert_event
accept_tx at spec_hash id new db = elim (find_job db id) [
  | some row ↦ do ensure (str_eq row.spec_hash spec_hash) job_id_conflict; ok (db, false)
  | none ↦ do
    db' ← insert_job (queued_job at spec_hash id new) db
    ok (insert_event id JobEventKind.submitted JobState.queued at (object end) db', true)
]

unfoldable pub accept_job :
    (Value → String) → Timestamp → JobId → NewJob → Db → Db × Outcome SubmitResult
unfolding accept_tx
accept_job fingerprint at id new db =
    transact db
      (do
        validate_new_job "upstream-job-id" new
        accept_tx at (job_spec_hash fingerprint new) id new db)
      (λ db' created. submitted created id db')

-- `WHERE id = ? AND revision = ?`
abbrev pub has_id_revision : JobId → ℕ → JobRecord → Bool
has_id_revision id revision r = has_id id r && r.revision == revision

abbrev pub set_state : JobState → ℕ → Timestamp → Option Value → JobRecord → JobRecord
set_state next revision at result r = record r {
  handle = record r.handle { state = next; revision = revision };
  updated_at = at;
  result = result;
}

abbrev pub event_kind : JobState → JobEventKind
event_kind current =
    if JobState.eq current JobState.reconciling || JobState.eq current JobState.outcome_unknown
    then JobEventKind.reconciled
    else JobEventKind.state_changed

unfoldable pub transition_tx :
    Timestamp → JobId → ℕ → JobState → Value → Option Value → Db → Outcome (Db × Unit {0})
transition_tx at id expected next payload result db = do
  row ← ok_or (find_job db id) job_not_found
  ensure (row.revision == expected) job_revision_changed
  ensure (JobState.can_transition_to row.state next) invalid_job_transition
  new_revision ← next_revision job_revision_overflow row.revision
  bound ← to_i64 new_revision
  revision ← to_i64 row.revision
  ensure (count_where (has_id_revision id revision) db.jobs == 1) job_revision_changed
  let updated = record db {
    jobs =
        update_where (has_id_revision id revision)
          (set_state next bound at (Option.map canonical_json result)) db.jobs;
  }
  ok (insert_event id (event_kind row.state) next at (canonical_json payload) updated, tt)

unfoldable pub transition_job :
    Timestamp → JobId → ℕ → JobState → Value → Option Value → Db → Db × Outcome JobRecord
transition_job at id expected next payload result db =
    transact db (transition_tx at id expected next payload result db) (λ db' _. get_job db' id)

abbrev pub set_cancel : ℕ → Timestamp → JobRecord → JobRecord
set_cancel revision at r = record r {
  handle = record r.handle { revision = revision };
  updated_at = at;
  cancel_requested = true;
}

unfoldable pub cancel_tx : Timestamp → JobId → ℕ → String → Db → Outcome (Db × Unit {0})
cancel_tx at id expected reason db = do
  ensure (bounded 1024 reason) invalid_cancel_reason
  row ← ok_or (find_job db id) job_not_found
  ensure (row.revision == expected) job_revision_changed
  ensure (not (JobState.is_terminal row.state)) terminal_job
  new_revision ← next_revision job_revision_overflow row.revision
  bound ← to_i64 new_revision
  revision ← to_i64 row.revision
  ensure (count_where (has_id_revision id revision) db.jobs == 1) job_revision_changed
  let updated = record db {
    jobs = update_where (has_id_revision id revision) (set_cancel bound at) db.jobs;
  }
  let payload = object (member "reason" (string reason) end)
  ok (insert_event id JobEventKind.cancel_requested row.state at payload updated, tt)

unfoldable pub request_cancel : Timestamp → JobId → ℕ → String → Db → Db × Outcome JobRecord
request_cancel at id expected reason db =
    transact db (cancel_tx at id expected reason db) (λ db' _. get_job db' id)
