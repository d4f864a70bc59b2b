-- ===== src/Store/Jobs/Inversion.antt =====
-- What a committed transition or cancellation has found and written, by the stages of its
-- transaction. The functions stand in crates/maxops-store/src/lib.rs.
use mathlib.Core.Option
use maxops.Prelude.{
  String, false, none, [], ◌∷◌, ◌++◌, str_eq, Bool, ℕ, ◌+◌, ◌≤◌, ◌≡◌, true, Option, some, arith, ok,
  Option-cases, update_where, inl, inr, ◌⊎◌,
}
use maxops.Proto.Ids.{JobId}
use maxops.Proto.Json.{Value, object, member, end, string}
use maxops.Proto.Jobs.{Timestamp, NewJob, JobRecord}
use maxops.Proto.JobState
use maxops.Proto.JobState.{JobState}
use maxops.Proto.JobEventKind.{JobEventKind}
use maxops.Store.Canonical.{canonical_json}
use maxops.Store.Db.{Db}
use maxops.Store.Errors.{i64_max, to_i64, next_revision}
use maxops.Store.Jobs.{
  find_job, has_id_revision, insert_event, event_kind, set_state, transition_tx, set_cancel,
  cancel_tx, insert_job, queued_job, accept_tx,
}

module _ (at : Timestamp) (id : JobId) where
  -- The tables after a transition of the row.
  abbrev pub transitioned : JobRecord → JobState → Value → Option Value → Db → Db
  transitioned row next payload result db =
      insert_event id (event_kind row.state) next at (canonical_json payload) (record db {
        jobs =
            update_where (has_id_revision id row.revision)
              (set_state next (row.revision + 1) at (Option.map canonical_json result)) db.jobs;
      })

  -- The tables after a cancellation request for the row.
  abbrev pub cancelled : JobRecord → String → Db → Db
  cancelled row reason db =
      insert_event id JobEventKind.cancel_requested row.state at
        (object (member "reason" (string reason) end))
        (record db {
          jobs =
              update_where (has_id_revision id row.revision) (set_cancel (row.revision + 1) at)
                db.jobs;
        })

module _ (at : Timestamp) (id : JobId) (expected : ℕ) where
  pub transition_tx-ok :
      (next : JobState) (payload : Value) (result : Option Value) (db : Db) {db' : Db}
      {u : Unit {0}}
      → transition_tx at id expected next payload result db ≡ ok (db', u)
      → (row : JobRecord) × (find_job db id ≡ some row)
        × (row.revision ≡ expected)
        × (JobState.can_transition_to row.state next ≡ true)
        × (row.revision + 1 ≤ i64_max)
        × (db' ≡ transitioned at id row next payload result db)
  unfolding transition_tx to_i64 next_revision
  transition_tx-ok next payload result db h = elim (Option-cases (find_job db id)) [
    | inl n ↦ absurd (ground arith)
    | inr (row, f) ↦ (row, f, ground arith, ground arith, ground arith, ground arith)
  ]

  pub cancel_tx-ok :
      (reason : String) (db : Db) {db' : Db} {u : Unit {0}}
      → cancel_tx at id expected reason db ≡ ok (db', u)
      → (row : JobRecord) × (find_job db id ≡ some row)
        × (row.revision ≡ expected)
        × (JobState.is_terminal row.state ≡ false)
        × (row.revision + 1 ≤ i64_max)
        × (db' ≡ cancelled at id row reason db)
  unfolding cancel_tx to_i64 next_revision
  cancel_tx-ok reason db h = elim (Option-cases (find_job db id)) [
    | inl n ↦ absurd (ground arith)
    | inr (row, f) ↦ (row, f, ground arith, ground arith, ground arith, ground arith)
  ]

-- The tables after a job is accepted.
abbrev pub accepted : Timestamp → String → JobId → NewJob → Db → Db
accepted at spec_hash id new db =
    insert_event id JobEventKind.submitted JobState.queued at (object end)
      (record db { jobs = db.jobs ++ queued_job at spec_hash id new ∷ [] })

pub accept_tx-ok :
    (at : Timestamp) (spec_hash : String) (id : JobId) (new : NewJob) (db : Db) {db' : Db}
    {created : Bool}
    → accept_tx at spec_hash id new db ≡ ok (db', created)
    → ((row : JobRecord) × (find_job db id ≡ some row)
        × (str_eq row.spec_hash spec_hash ≡ true)
        × (db' ≡ db)
        × (created ≡ false))
      ⊎ ((find_job db id ≡ none) × (db' ≡ accepted at spec_hash id new db) × (created ≡ true))
unfolding accept_tx insert_job
accept_tx-ok at spec_hash id new db h = elim (Option-cases (find_job db id)) [
  | inl n ↦ inr (n, ground arith, ground arith)
  | inr (row, f) ↦ inl (row, f, ground arith, ground arith, ground arith)
]
