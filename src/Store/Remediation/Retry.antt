-- ===== src/Store/Remediation/Retry.antt =====
-- A new attempt and a repeated call of `begin_remediation` of crates/maxops-store/src/lib.rs.

use maxops.Prelude.{
  ◌+◌, ◌≡◌, refl, sym, true, some, [], ◌∷◌, ok, ensure, ◌>>◌, inl, inr, arith, str_eq_refl, ltb,
  find?, find?-append, count_where,
}
use maxops.Proto.Ids.{RemediationId}
use maxops.Proto.Events.{RemediationRecord}
use maxops.Store.Clock.{Clock}
use maxops.Store.Db.{Db}
use maxops.Store.Errors.{transact, transact_ok, no_remediation_attempts}
use maxops.Store.Remediation.{
  is_of_job, BeginRemediation, new_remediation, attempts_of, begin_tx, begin_remediation,
}
use maxops.Store.Remediation.Inversion.{begin_tx-ok}

-- After a begin that committed, the job has a row with the identifier that was replied with.
settled :
    (clock : Clock) (b : BeginRemediation) (db : Db) {db' : Db} {id : RemediationId}
    → (ensure (ltb 0 b.max_attempts) no_remediation_attempts >> begin_tx clock b db) ≡ ok (db', id)
    → (row : RemediationRecord) × (find? (is_of_job b.related_job_id b.principal) db'.remediations
        ≡ some row)
      × (row.remediation_id ≡ id)
unfolding find? count_where
settled clock b db {db'} {id} h =
    let body : begin_tx clock b db ≡ ok (db', id) = ground (arith, h) in
    elim (begin_tx-ok clock b db body) [
      | inl (row, found, e, same) ↦ (row, rw e found, sym same)
      | inr (n, s, same) ↦
          let row = new_remediation b s.event.episode_id (attempts_of s.event.episode_id db + 1) in
          (
            row,
            rw s.written (
                rw
                  (find?-append (is_of_job b.related_job_id b.principal) db.remediations (row ∷ []))
                  (rw n (rw (str_eq_refl b.related_job_id) (rw (str_eq_refl b.principal) refl)))),
            sym same,
          )
    ]

-- When beginning a remediation has been answered with a record, a repeated call for the same job
-- and principal, with a positive limit of attempts and whatever other arguments, new identifiers
-- and time, is answered with the same record and changes nothing.
pub begin_remediation-retries :
    (clock : Clock) (b again : BeginRemediation) (db : Db) {r : RemediationRecord}
    → (begin_remediation clock b db).1 ≡ ok r
    → again.related_job_id ≡ b.related_job_id
    → again.principal ≡ b.principal
    → ltb 0 again.max_attempts ≡ true
    → let db' = (begin_remediation clock b db).0 in begin_remediation clock again db' ≡ (db', ok r)
unfolding begin_remediation begin_tx transact
begin_remediation-retries clock b again db {r} h job who positive =
    let (db', id, q, reply, e) = transact_ok db _ _ h in
    let (row, found, same) = settled clock b db q in
    ground (arith, q, found, same, job, who, positive, reply)
