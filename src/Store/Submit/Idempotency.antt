-- ===== src/Store/Submit/Idempotency.antt =====
-- A second submission with the key of a first one, in `submit_linked_job` of
-- crates/maxops-store/src/lib.rs.
use maxops.Prelude.{
  String, ◌≡◌, refl, Bool, Bool-cases, false, Option, none, some, arith, ok, err, second-ok, inl,
  inr, str_eq, str_eq_refl, eq_of_str_eq, ap, find?, find?-append, if◌then◌else◌, Result-cases,
  List,
}
use maxops.Proto.Ids.{JobId}
use maxops.Proto.Json.{Value}
use maxops.Proto.Jobs.{Timestamp, NewJob, JobRecord}
use maxops.Store.Db.{Db, IdempotencyRow, ChangeRow}
use maxops.Store.Canonical.{job_spec_hash}
use maxops.Store.Errors.{transact, transact_ok, idempotency_conflict}
use maxops.Store.Jobs.{get_job, has_key, insert_event, validate_new_job, SubmitResult, submitted}
use maxops.Store.Changes.{ChangeJobLink}
use maxops.Store.Submit.{submit_tx, submit_linked_job}
use maxops.Store.Submit.Inversion.{submitted_db, submit_tx-ok}

-- The receipt that a key has, with the job that it names.
pub record HasReceipt (db : Db) (principal key spec_hash : String) (job : JobRecord) : Type 0 where
  pub row : IdempotencyRow
  pub found : find? (has_key principal key) db.idempotency ≡ some row
  pub hash : row.spec_hash ≡ spec_hash
  pub holds : get_job db row.job_id ≡ ok job

get_of_submitted :
    (created : Bool) (id : JobId) (db : Db) (r : SubmitResult)
    → submitted created id db ≡ ok r
    → get_job db id ≡ ok r.job
get_of_submitted created id db r h = elim (Result-cases (get_job db id)) [
  | inl (job, q) ↦ ground (arith, q)
  | inr (e, q) ↦ absurd (ground (arith, q))
]

abbrev new_receipt : Timestamp → String → String → String → JobId → IdempotencyRow
new_receipt at principal key spec_hash id = record {
  principal = principal;
  key = key;
  spec_hash = spec_hash;
  job_id = id;
  created_at = at;
}

receipt_found :
    (at : Timestamp) (spec_hash key : String) (id : JobId) (new : NewJob) (changes : List ChangeRow)
    (db : Db)
    → find? (has_key new.principal key) db.idempotency ≡ none
    → find?
        (has_key new.principal key)
        (submitted_db at spec_hash key id new changes db).idempotency
      ≡ some (new_receipt at new.principal key spec_hash id)
unfolding insert_event find?
receipt_found at spec_hash key id new changes db free =
    rw (find?-append, free) (rw (str_eq_refl, str_eq_refl))

module _ (fingerprint : Value → String) (at : Timestamp) (key : String) (id : JobId) (new : NewJob)
    (link : Option ChangeJobLink) (db : Db) where
  pub submit_linked_job-HasReceipt :
      {r : SubmitResult}
      → (submit_linked_job fingerprint at key id new link db).1 ≡ ok r
      → HasReceipt
          (submit_linked_job fingerprint at key id new link db).0
          new.principal
          key
          (job_spec_hash fingerprint new)
          r.job
  unfolding submit_linked_job
  submit_linked_job-HasReceipt {r} h =
      let (db', receipt, q, reply, e) = transact_ok db _ _ h in
      let spec_hash = job_spec_hash fingerprint new in
      let got = get_of_submitted receipt.1 receipt.0 db' r reply in
      rw e
        (elim (submit_tx-ok at spec_hash key id new link db
          (second-ok (validate_new_job key new) q)) [
            | inl (row, found, same, unchanged, named) ↦ record {
              row = row;
              found = rw unchanged found;
              hash = eq_of_str_eq row.spec_hash spec_hash same;
              holds = rw (← ap (λ p. p.0) named) got;
            }
            | inr (changes, free, _, written, named) ↦ record {
              row = new_receipt at new.principal key spec_hash id;
              found = rw written (receipt_found at spec_hash key id new changes db free);
              hash = refl;
              holds = rw (← ap (λ p. p.0) named) got;
            }
          ])

answered :
    (fingerprint : Value → String) (at : Timestamp) (key : String) (id : JobId) (new : NewJob)
    (link : Option ChangeJobLink) (db : Db) (spec_hash : String) (job : JobRecord)
    → HasReceipt db new.principal key spec_hash job
    → validate_new_job key new ≡ ok tt
    → submit_linked_job fingerprint at key id new link db ≡ (
      db,
      if str_eq spec_hash (job_spec_hash fingerprint new)
          then ok (record { job = job; created = false })
          else err idempotency_conflict,
    )
unfolding submit_linked_job submit_tx transact
answered fingerprint at key id new link db spec_hash job held valid =
    rw (valid, ← held.hash)
      (elim (Bool-cases (str_eq held.row.spec_hash (job_spec_hash fingerprint new))) [
        | inl e ↦ ground (arith, e, held.found, held.holds)
        | inr e ↦ ground (arith, e, held.found, held.holds)
      ])

-- A key answers once and for all. After a submission has succeeded, a submission with the same
-- principal and key, whatever its identifier, time and link, changes nothing: it returns the same
-- job, as not created, if its specification has the same hash, and a conflict if it has another.
pub submit_linked_job-idempotent :
    (fingerprint : Value → String) (at : Timestamp) (key : String) (id : JobId) (new : NewJob)
    (link : Option ChangeJobLink) (db : Db) {r : SubmitResult}
    → (submit_linked_job fingerprint at key id new link db).1 ≡ ok r
    → (at' : Timestamp) (id' : JobId) (new' : NewJob) (link' : Option ChangeJobLink)
    → new'.principal ≡ new.principal
    → validate_new_job key new' ≡ ok tt
    → let db' = (submit_linked_job fingerprint at key id new link db).0 in
      submit_linked_job fingerprint at' key id' new' link' db' ≡ (
        db',
        if str_eq (job_spec_hash fingerprint new) (job_spec_hash fingerprint new')
            then ok (record { job = r.job; created = false })
            else err idempotency_conflict,
      )
submit_linked_job-idempotent fingerprint at key id new link db {r} h at' id' new' link' same valid =
    answered fingerprint at' key id' new' link'
      (submit_linked_job fingerprint at key id new link db).0 (job_spec_hash fingerprint new) r.job
      (rw same (submit_linked_job-HasReceipt fingerprint at key id new link db h)) valid
