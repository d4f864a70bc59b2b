-- ===== src/Store/Jobs/Accepting.antt =====
-- Repeated acceptance of a job by an executor: `accept_job` of crates/maxops-store/src/lib.rs.
use maxops.Prelude.{
  String, ◌≡◌, refl, Bool, false, some, arith, ok, inl, inr, ◌∙◌, sym, ap, subst, second-ok,
  first-ok, str_eq_refl, eq_of_str_eq,
}
use maxops.Proto.Ids.{JobId}
use maxops.Proto.Json.{Value}
use maxops.Proto.Jobs.{Timestamp, NewJob, JobRecord}
use maxops.Store.Db.{Db}
use maxops.Store.Errors.{transact, transact_ok}
use maxops.Store.Canonical.{job_spec_hash}
use maxops.Store.Jobs.{
  find_job, get_job, accept_job, accept_tx, validate_new_job, submitted, queued_job, SubmitResult,
}
use maxops.Store.Jobs.Inversion.{accept_tx-ok}
use maxops.Store.Jobs.Rows.{find_job-accepted}
use maxops.Store.Jobs.Evolution.{JobsEvolve}

module _ (fingerprint : Value → String) (id : JobId) (new : NewJob) where
  -- The table holds the job with the hash of this specification.
  unfoldable pub Holds : Db → Type 0
  Holds db =
      (row : JobRecord) × (find_job db id ≡ some row)
      × (row.spec_hash ≡ job_spec_hash fingerprint new)

  accept_tx-Holds :
      (at : Timestamp) (db db' : Db) (created : Bool)
      → accept_tx at (job_spec_hash fingerprint new) id new db ≡ ok (db', created)
      → Holds db'
  unfolding Holds
  accept_tx-Holds at db db' created h =
      elim (accept_tx-ok at (job_spec_hash fingerprint new) id new db h) [
        | inl (row, found, same, e, _) ↦
            (row, ap (λ d. find_job d id) e ∙ found, eq_of_str_eq _ _ same)
        | inr (absent, e, _) ↦ (
          queued_job at (job_spec_hash fingerprint new) id new,
          ap (λ d. find_job d id) e
              ∙ ground (
                arith,
                find_job-accepted at (job_spec_hash fingerprint new) id new db id absent,
                str_eq_refl id,
              ),
          refl,
        )
      ]

  accept_job-Holds :
      (at : Timestamp) (db : Db) {r : SubmitResult}
      → (accept_job fingerprint at id new db).1 ≡ ok r
      → Holds (accept_job fingerprint at id new db).0
        × (validate_new_job "upstream-job-id" new ≡ ok tt)
  unfolding accept_job
  accept_job-Holds at db h =
      let (db', created, e, reply, ends) = transact_ok db _ _ h in
      (
        subst Holds (sym ends) (
            accept_tx-Holds at db db' created
              (second-ok (validate_new_job "upstream-job-id" new) e)),
        first-ok (validate_new_job "upstream-job-id" new) _ e,
      )

  evolved-Holds : (db db' : Db) → JobsEvolve db db' → Holds db → Holds db'
  unfolding Holds
  evolved-Holds db db' evolves (row, found, same) =
      let (row', found', e) = evolves.job id row found in (row', found', e.spec_hash ∙ same)

  accept_tx-again :
      (at : Timestamp) (db : Db) (row : JobRecord)
      → find_job db id ≡ some row
      → row.spec_hash ≡ job_spec_hash fingerprint new
      → accept_tx at (job_spec_hash fingerprint new) id new db ≡ ok (db, false)
  unfolding accept_tx
  accept_tx-again at db row found same = ground (arith, found, same, str_eq_refl row.spec_hash)

  again_reply :
      (db : Db) (row : JobRecord)
      → find_job db id ≡ some row
      → submitted false id db ≡ ok (record { job = row; created = false })
  unfolding get_job
  again_reply db row found = rw found refl

  accept_job-again :
      (at : Timestamp) (db : Db) (row : JobRecord)
      → validate_new_job "upstream-job-id" new ≡ ok tt
      → find_job db id ≡ some row
      → row.spec_hash ≡ job_spec_hash fingerprint new
      → accept_job fingerprint at id new db ≡ (db, ok (record { job = row; created = false }))
  unfolding accept_job transact
  accept_job-again at db row valid found same =
      rw valid
        (rw (accept_tx-again at db row found same) (ap (λ x. (db, x)) (again_reply db row found)))

  -- Once an executor has accepted a job, then however its jobs move on, the same request is
  -- answered with the job as it is now, starts nothing anew and changes nothing.
  pub accept_job-idempotent :
      (at later : Timestamp) (db db' : Db) (r : SubmitResult)
      → (accept_job fingerprint at id new db).1 ≡ ok r
      → JobsEvolve (accept_job fingerprint at id new db).0 db'
      → (row : JobRecord) × (find_job db' id ≡ some row)
        × (accept_job fingerprint later id new db'
            ≡ (db', ok (record { job = row; created = false })))
  unfolding Holds
  accept_job-idempotent at later db db' r h evolves =
      let (held, valid) = accept_job-Holds at db h in
      let (row, found, same) = evolved-Holds _ db' evolves held in
      (row, found, accept_job-again later db' row valid found same)
