-- ===== src/Store/Resources/Exclusion.antt =====
-- The ways in which `try_acquire_resource` of crates/maxops-store/src/lib.rs ends.

use maxops.Prelude.{
  String, ◌≡◌, Bool, Bool-cases, true, false, none, some, [], ◌∷◌, ◌++◌, ok, inl, inr, arith,
  str_eq, eq_of_str_eq, update_where, Option-cases,
}
use maxops.Proto.Ids.{JobId}
use maxops.Proto.Jobs.{Timestamp, JobRecord}
use maxops.Proto.JobState
use maxops.Store.Db.{Db, ResourceRow}
use maxops.Store.Errors.{wrapping_next}
use maxops.Store.Jobs.{find_job}
use maxops.Store.Resources.{find_resource, has_revision, take_over, new_resource, acquire_tx}

module _ (at : Timestamp) (kind key : String) (owner : JobId) (db : Db) where
  -- The four ways in which an attempt ends.
  pub data Acquired (db' : Db) (b : Bool) : Type 0 where
    own :
        (row : ResourceRow)
        → find_resource db kind key ≡ some row
        → row.owner_job_id ≡ owner
        → db' ≡ db
        → b ≡ true
        → Acquired db' b
    busy :
        (row : ResourceRow) (job : JobRecord)
        → find_resource db kind key ≡ some row
        → find_job db row.owner_job_id ≡ some job
        → str_eq row.owner_job_id owner ≡ false
        → JobState.is_terminal job.state ≡ false
        → db' ≡ db
        → b ≡ false
        → Acquired db' b
    stale :
        (row : ResourceRow) (job : JobRecord)
        → find_resource db kind key ≡ some row
        → find_job db row.owner_job_id ≡ some job
        → str_eq row.owner_job_id owner ≡ false
        → JobState.is_terminal job.state ≡ true
        → db' ≡ record db {
          resources =
              update_where
                (has_revision kind key row.revision)
                (take_over at owner (wrapping_next row.revision))
                db.resources;
        }
        → b ≡ true
        → Acquired db' b
    unheld :
        find_resource db kind key ≡ none
        → db' ≡ record db { resources = db.resources ++ new_resource at kind key owner ∷ [] }
        → b ≡ true
        → Acquired db' b

  acquire_held :
      {db' : Db} {b : Bool} (row : ResourceRow) (job : JobRecord)
      → find_resource db kind key ≡ some row
      → find_job db row.owner_job_id ≡ some job
      → acquire_tx at kind key owner db ≡ ok (db', b)
      → Acquired db' b
  unfolding acquire_tx
  acquire_held row job found owned h = elim (Bool-cases (str_eq row.owner_job_id owner)) [
    | inl same ↦ own row found (eq_of_str_eq _ _ same) (ground arith) (ground arith)
    | inr other ↦ elim (Bool-cases (JobState.is_terminal job.state)) [
      | inl over ↦ stale row job found owned other over (ground arith) (ground arith)
      | inr live ↦ busy row job found owned other live (ground arith) (ground arith)
    ]
  ]

  pub acquire_tx-ok :
      {db' : Db} {b : Bool} → acquire_tx at kind key owner db ≡ ok (db', b) → Acquired db' b
  acquire_tx-ok h = elim (Option-cases (find_resource db kind key)) [
    | inl n ↦ unfold acquire_tx in unheld n (ground arith) (ground arith)
    | inr (row, found) ↦ elim (Option-cases (find_job db row.owner_job_id)) [
      | inl n ↦ unfold acquire_tx in absurd (ground arith)
      | inr (job, owned) ↦ acquire_held row job found owned h
    ]
  ]
