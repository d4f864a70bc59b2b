-- ===== src/Store/Submit/Linking.antt =====
-- `submit_linked_job` of crates/maxops-store/src/lib.rs with a link: the job, the change
-- and the workflow that owns it.

use maxops.Prelude.{
  String, ◌≡◌, refl, Bool, false, Option-cases, none, some, [], ◌∷◌, ◌++◌, is_ok, inl, inr, arith,
  str_eq, find?, find?-append,
}
use maxops.Proto.Ids.{JobId}
use maxops.Proto.Json.{Value}
use maxops.Proto.Jobs.{Timestamp, NewJob, JobRecord}
use maxops.Store.Db.{Db, ChangeRow}
use maxops.Store.Errors.{transact}
use maxops.Store.Canonical.{job_spec_hash}
use maxops.Store.Jobs.{has_id, has_key, find_job, queued_job, insert_job}
use maxops.Store.Changes.{ChangeJobLink, is_owned, is_released, link_change}
use maxops.Store.Submit.{submit_tx, submit_linked_job}

-- The link is made in the name of the workflow job.
abbrev pub is_by : JobId → ChangeJobLink → Bool
is_by owner link = elim link.workflow [ none ↦ false | some workflow ↦ str_eq owner workflow ]

module _ (at : Timestamp) (principal : String) (id : JobId) (link : ChangeJobLink) (db : Db) where
  link_change-owned :
      {row : ChangeRow} {owner : JobId} {job : JobRecord}
      → find? (is_owned link.change.plan.change_id principal) db.changes ≡ some row
      → row.workflow_job_id ≡ some owner
      → find_job db owner ≡ some job
      → is_released (some job) ≡ false
      → is_by owner link ≡ false
      → is_ok (link_change at principal id link db) ≡ false
  unfolding link_change
  link_change-owned {row} {owner} {job} found owned there held other =
      elim (Option-cases link.workflow) [
        | inl n ↦ ground (arith, found, owned, there, held, other, n)
        | inr (w, e) ↦ ground (arith, found, owned, there, held, other, e)
      ]

-- The tables with the new job.
abbrev pub inserted : Timestamp → String → JobId → NewJob → Db → Db
inserted at spec_hash id new db = record db {
  jobs = db.jobs ++ queued_job at spec_hash id new ∷ [];
}

-- While a workflow job that is not settled owns a change, a new submission that links a job to
-- the change, in the name of no workflow or of another one, fails and changes nothing: neither
-- the job nor the receipt of its key is kept.
pub submit_linked_job-owned :
    (fingerprint : Value → String) (at : Timestamp) (key : String) (id : JobId) (new : NewJob)
    (link : ChangeJobLink) (db : Db) {row : ChangeRow} {owner : JobId} {job : JobRecord}
    → find? (has_key new.principal key) db.idempotency ≡ none
    → find? (is_owned link.change.plan.change_id new.principal) db.changes ≡ some row
    → row.workflow_job_id ≡ some owner
    → find_job db owner ≡ some job
    → is_released (some job) ≡ false
    → is_by owner link ≡ false
    → ((submit_linked_job fingerprint at key id new (some link) db).0 ≡ db)
      × (is_ok (submit_linked_job fingerprint at key id new (some link) db).1 ≡ false)
unfolding submit_linked_job submit_tx insert_job transact find_job
submit_linked_job-owned fingerprint at key id new link db {row} {owner} {job} fresh found owned
      there held other =
    let hash = job_spec_hash fingerprint new in
    let still : find? (has_id owner) (inserted at hash id new db).jobs ≡ some job =
      rw (find?-append (has_id owner) db.jobs (queued_job at hash id new ∷ [])) (rw there refl) in
    let refused =
      link_change-owned at new.principal id link (inserted at hash id new db) found owned still held
        other in
    (ground (arith, fresh, refused), ground (arith, fresh, refused))
