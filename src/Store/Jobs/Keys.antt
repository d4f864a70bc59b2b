-- ===== src/Store/Jobs/Keys.antt =====
-- The primary key of `jobs` under the operations of crates/maxops-store/src/lib.rs.
use maxops.Prelude.{
  ℕ, String, ◌≡◌, refl, Bool, Option, none, some, arith, ok, str_eq, str_eq_comm, str_eq_refl,
  eq_of_str_eq, fun_ext, sym, subst, second-ok, inl, inr, IsUnique, IsUnique-append,
  IsUnique-update_where, count_where, count_unique, ◌==◌,
}
use maxops.Proto.Ids.{JobId}
use maxops.Proto.Json.{Value}
use maxops.Proto.Jobs.{Timestamp, NewJob, JobRecord}
use maxops.Proto.JobState.{JobState}
use maxops.Store.Db.{Db}
use maxops.Store.Errors.{transact_inv}
use maxops.Store.Canonical.{job_spec_hash}
use maxops.Store.Jobs.{
  find_job, has_id, has_id_revision, validate_new_job, insert_event, accept_tx, transition_tx,
  cancel_tx, accept_job, transition_job, request_cancel,
}
use maxops.Store.Jobs.Inversion.{accepted, transition_tx-ok, cancel_tx-ok, accept_tx-ok}

abbrev pub same_job : JobRecord → JobRecord → Bool
same_job a b = str_eq a.job_id b.job_id

abbrev pub HasUniqueJobs : Db → Type 0
HasUniqueJobs db = IsUnique same_job db.jobs

pub accepted-HasUniqueJobs :
    (at : Timestamp) (spec_hash : String) (id : JobId) (new : NewJob) (db : Db)
    → find_job db id ≡ none
    → HasUniqueJobs db
    → HasUniqueJobs (accepted at spec_hash id new db)
unfolding find_job insert_event
accepted-HasUniqueJobs at spec_hash id new db absent u =
    IsUnique-append same_job (λ x y. str_eq_comm x.job_id y.job_id) db.jobs _
      (rw (fun_ext (λ (r : JobRecord). str_eq_comm id r.job_id)) absent) u

-- The number of rows that an UPDATE by identifier and revision changes.
pub count-has_id_revision :
    (db : Db) (id : JobId) (row : JobRecord) (revision : ℕ)
    → HasUniqueJobs db
    → find_job db id ≡ some row
    → row.revision ≡ revision
    → count_where (has_id_revision id revision) db.jobs ≡ 1
unfolding find_job
count-has_id_revision db id row revision u found same = ground (
  arith,
  count_unique same_job (has_id id) (λ r. r.revision == revision) db.jobs {r = row}
      (λ x y p q.
        ground (arith, eq_of_str_eq x.job_id id p, eq_of_str_eq y.job_id id q, str_eq_refl id))
      u found,
)

module _ (at : Timestamp) (id : JobId) (db : Db) (u : HasUniqueJobs db) where
  pub transition_job-HasUniqueJobs :
      (expected : ℕ) (next : JobState) (payload : Value) (result : Option Value)
      → HasUniqueJobs (transition_job at id expected next payload result db).0
  unfolding transition_job insert_event
  transition_job-HasUniqueJobs expected next payload result =
      transact_inv HasUniqueJobs db (transition_tx at id expected next payload result db) _ u
        λ db' _ h.
          let (row, _, _, _, _, e) = transition_tx-ok at id expected next payload result db h in
          subst HasUniqueJobs (sym e) (
            IsUnique-update_where same_job (has_id_revision id row.revision) _ db.jobs (λ x y. refl)
              (λ x y. refl) u)

  pub request_cancel-HasUniqueJobs :
      (expected : ℕ) (reason : String) → HasUniqueJobs (request_cancel at id expected reason db).0
  unfolding request_cancel insert_event
  request_cancel-HasUniqueJobs expected reason =
      transact_inv HasUniqueJobs db (cancel_tx at id expected reason db) _ u λ db' _ h.
        let (row, _, _, _, _, e) = cancel_tx-ok at id expected reason db h in
        subst HasUniqueJobs (sym e) (
          IsUnique-update_where same_job (has_id_revision id row.revision) _ db.jobs (λ x y. refl)
            (λ x y. refl) u)

  accept_tx-HasUniqueJobs :
      (spec_hash : String) (new : NewJob) (db' : Db) (created : Bool)
      → accept_tx at spec_hash id new db ≡ ok (db', created)
      → HasUniqueJobs db'
  accept_tx-HasUniqueJobs spec_hash new db' created h =
      elim (accept_tx-ok at spec_hash id new db h) [
        | inl (_, _, _, e, _) ↦ subst HasUniqueJobs (sym e) u
        | inr (absent, e, _) ↦
            subst HasUniqueJobs (sym e) (accepted-HasUniqueJobs at spec_hash id new db absent u)
      ]

  pub accept_job-HasUniqueJobs :
      (fingerprint : Value → String) (new : NewJob)
      → HasUniqueJobs (accept_job fingerprint at id new db).0
  unfolding accept_job
  accept_job-HasUniqueJobs fingerprint new = transact_inv HasUniqueJobs db _ _ u λ db' created h.
      accept_tx-HasUniqueJobs (job_spec_hash fingerprint new) new db' created
        (second-ok (validate_new_job "upstream-job-id" new) h)
