-- ===== src/Store/Submit.antt =====
-- `submit_linked_job`, `submit_job_with_id` and `submit_job` of crates/maxops-store/src/lib.rs: a
-- job, its idempotency receipt, its first event and the link to its change in one transaction.
pub mod Inversion
pub mod Laws
pub mod Idempotency
pub mod Linking
use maxops.Prelude.{
  String, Bool, true, false, Option, none, some, [], ◌∷◌, ◌++◌, ok, ◌>>=◌, ◌>>◌, ensure, str_eq,
  find?,
}
use maxops.Proto.Ids.{JobId}
use maxops.Proto.Json.{Value, object, end}
use maxops.Proto.Jobs.{Timestamp, NewJob}
use maxops.Proto.JobState
use maxops.Proto.JobEventKind.{JobEventKind}
use maxops.Store.Canonical.{job_spec_hash}
use maxops.Store.Db.{Db}
use maxops.Store.Errors.{Outcome, idempotency_conflict, transact}
use maxops.Store.Jobs.{
  SubmitResult, has_key, validate_new_job, queued_job, insert_job, insert_event, submitted,
}
use maxops.Store.Changes.{ChangeJobLink, link_change}

-- INSERT INTO idempotency: the caller has just found that the key is free.
abbrev pub insert_receipt : Timestamp → String → String → String → JobId → Db → Db
insert_receipt at principal key spec_hash id db = record db {
  idempotency =
      db.idempotency
      ++ (record {
        principal = principal;
        key = key;
        spec_hash = spec_hash;
        job_id = id;
        created_at = at;
      })
        ∷ [];
}

abbrev pub link_if_some : Timestamp → String → JobId → Option ChangeJobLink → Db → Outcome Db
link_if_some at principal id none db = ok db
link_if_some at principal id (some link) db = link_change at principal id link db

-- The job that holds the key, and whether it is new.
unfoldable pub submit_tx :
    Timestamp
    → String
    → String
    → JobId
    → NewJob
    → Option ChangeJobLink
    → Db
    → Outcome (Db × (JobId × Bool))
submit_tx at spec_hash key id new link db =
    elim (find? (has_key new.principal key) db.idempotency) [
      | some row ↦ do
        ensure (str_eq row.spec_hash spec_hash) idempotency_conflict
        ok (db, (row.job_id, false))
      | none ↦ do
        inserted ← insert_job (queued_job at spec_hash id new) db
        linked ← link_if_some at new.principal id link inserted
        let received = insert_receipt at new.principal key spec_hash id linked
        ok (
          insert_event id JobEventKind.submitted JobState.queued at (object end) received,
          (id, true),
        )
    ]

unfoldable pub submit_linked_job :
    (Value → String)
    → Timestamp
    → String
    → JobId
    → NewJob
    → Option ChangeJobLink
    → Db
    → Db × Outcome SubmitResult
submit_linked_job fingerprint at key id new link db =
    transact db
      (do validate_new_job key new; submit_tx at (job_spec_hash fingerprint new) key id new link db)
      (λ db' receipt. submitted receipt.1 receipt.0 db')

-- `submit_job` calls it with a fresh identifier.
unfoldable pub submit_job_with_id :
    (Value → String) → Timestamp → String → JobId → NewJob → Db → Db × Outcome SubmitResult
submit_job_with_id fingerprint at key id new db =
    submit_linked_job fingerprint at key id new none db
