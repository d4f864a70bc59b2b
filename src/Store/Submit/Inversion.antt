-- ===== src/Store/Submit/Inversion.antt =====
-- What a committed `submit_linked_job` (crates/maxops-store/src/lib.rs) has found and written.
use maxops.Prelude.{
  String, Bool, ◌≡◌, ◌⊎◌, true, false, Option, none, some, ok, arith, inl, inr, str_eq, find?,
  Option-cases, [], ◌∷◌, ◌++◌, List, Result-cases,
}
use maxops.Proto.Ids.{JobId}
use maxops.Proto.Json.{object, end}
use maxops.Proto.Jobs.{Timestamp, NewJob}
use maxops.Proto.JobState
use maxops.Proto.JobEventKind.{JobEventKind}
use maxops.Store.Db.{Db, IdempotencyRow, ChangeRow}
use maxops.Store.Errors.{to_i64}
use maxops.Store.Jobs.{has_key, find_job, queued_job, insert_job, insert_event}
use maxops.Store.Changes.{ChangeJobLink, link_change, is_owned}
use maxops.Store.Submit.{insert_receipt, link_if_some, submit_tx}

-- A link changes the table of changes only.
link_change-keeps :
    (at : Timestamp) (principal : String) (id : JobId) (link : ChangeJobLink) (db : Db) {l : Db}
    → link_change at principal id link db ≡ ok l
    → l ≡ record db { changes = l.changes }
unfolding link_change to_i64
link_change-keeps at principal id link db h =
    elim (Option-cases (find? (is_owned link.change.plan.change_id principal) db.changes)) [
      | inl n ↦ absurd (ground arith)
      | inr (row, f) ↦ ground arith
    ]

link_if_some-keeps :
    (at : Timestamp) (principal : String) (id : JobId) (link : Option ChangeJobLink) (db : Db)
    {l : Db}
    → link_if_some at principal id link db ≡ ok l
    → l ≡ record db { changes = l.changes }
link_if_some-keeps at principal id none db h = ground arith
link_if_some-keeps at principal id (some link) db h = link_change-keeps at principal id link db h

-- The tables after a new job is submitted, `changes` being those that the link wrote.
abbrev pub submitted_db : Timestamp → String → String → JobId → NewJob → List ChangeRow → Db → Db
submitted_db at spec_hash key id new changes db =
    insert_event id JobEventKind.submitted JobState.queued at (object end) (
      insert_receipt at new.principal key spec_hash id
        (record db { jobs = db.jobs ++ queued_job at spec_hash id new ∷ []; changes = changes }))

pub submit_tx-ok :
    (at : Timestamp) (spec_hash key : String) (id : JobId) (new : NewJob)
    (link : Option ChangeJobLink) (db : Db) {db' : Db} {receipt : JobId × Bool}
    → submit_tx at spec_hash key id new link db ≡ ok (db', receipt)
    → ((row : IdempotencyRow) × (find? (has_key new.principal key) db.idempotency ≡ some row)
        × (str_eq row.spec_hash spec_hash ≡ true)
        × (db' ≡ db)
        × (receipt ≡ (row.job_id, false)))
      ⊎ ((changes : List ChangeRow) × (find? (has_key new.principal key) db.idempotency ≡ none)
          × (find_job db id ≡ none)
          × (db' ≡ submitted_db at spec_hash key id new changes db)
          × (receipt ≡ (id, true)))
unfolding submit_tx insert_job
submit_tx-ok at spec_hash key id new link db h =
    elim (Option-cases (find? (has_key new.principal key) db.idempotency)) [
      | inr (row, f) ↦ inl (row, f, ground arith, ground arith, ground arith)
      | inl n ↦
          elim (Result-cases (
            link_if_some at new.principal id link
              (record db { jobs = db.jobs ++ queued_job at spec_hash id new ∷ [] }))) [
                | inl (l, e) ↦ inr (
                  l.changes,
                  n,
                  ground arith,
                  ground (
                    arith,
                    link_if_some-keeps at new.principal id link
                        (record db { jobs = db.jobs ++ queued_job at spec_hash id new ∷ [] })
                        {l = l} e,
                  ),
                  ground (arith, e),
                )
                | inr (x, e) ↦ absurd (ground (arith, e))
              ]
    ]
