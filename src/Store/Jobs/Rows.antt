-- ===== src/Store/Jobs/Rows.antt =====
-- The rows of `jobs` after a committed operation of crates/maxops-store/src/lib.rs, by identifier.
use maxops.Prelude.{
  String, ◌+◌, ◌≡◌, refl, ap, Bool-cases, Option, none, some, inl, inr, List, arith, str_eq,
  str_eq_refl, eq_of_str_eq, find?, find?-holds, find?-append, find?-update_where, update_where,
  if◌then◌else◌, Option-cases,
}
use mathlib.Core.Option
use maxops.Proto.Ids.{JobId}
use maxops.Proto.Json.{Value}
use maxops.Proto.Jobs.{Timestamp, NewJob, JobRecord}
use maxops.Proto.JobState.{JobState}
use maxops.Store.Db.{Db}
use maxops.Store.Canonical.{canonical_json}
use maxops.Store.Jobs.{
  find_job, has_id, has_id_revision, insert_event, queued_job, set_state, set_cancel,
}
use maxops.Store.Jobs.Inversion.{transitioned, cancelled, accepted}

-- The row of a job after an UPDATE by identifier and revision that keeps identifiers.
find-update_revision :
    (id j : JobId) (row : JobRecord) (f : JobRecord → JobRecord) (rows : List JobRecord)
    → ((r : JobRecord) → (f r).job_id ≡ r.job_id)
    → find? (has_id id) rows ≡ some row
    → find? (has_id j) (update_where (has_id_revision id row.revision) f rows)
      ≡ (if str_eq id j then some (f row) else find? (has_id j) rows)
find-update_revision id j row f rows keep h =
    rw
      (find?-update_where (has_id_revision id row.revision) (has_id j) f rows
        (λ r. ap (λ x. str_eq x j) (keep r)))
      (elim (Bool-cases (str_eq id j)) [
        | inl same ↦ ground (
          arith,
          h,
          ap (λ k. find? (has_id k) rows) (eq_of_str_eq id j same),
          find?-holds (has_id id) rows {x = row} h,
        )
        | inr other ↦ elim (Option-cases (find? (has_id j) rows)) [
          | inl n ↦ ground (arith, n)
          | inr (r, e) ↦ ground (
            arith,
            e,
            find?-holds (has_id j) rows {x = r} e,
            eq_of_str_eq r.job_id id,
            eq_of_str_eq r.job_id j,
            str_eq_refl j,
          )
        ]
      ])

-- A transition and a cancellation change the row of their job, and of no other.
pub find_job-transitioned :
    (at : Timestamp) (id : JobId) (row : JobRecord) (next : JobState) (payload : Value)
    (result : Option Value) (db : Db) (j : JobId)
    → find_job db id ≡ some row
    → find_job (transitioned at id row next payload result db) j ≡ (
        if str_eq id j
        then some (set_state next (row.revision + 1) at (Option.map canonical_json result) row)
        else find_job db j)
unfolding find_job insert_event
find_job-transitioned at id row next payload result db j h =
    find-update_revision id j row
      (set_state next (row.revision + 1) at (Option.map canonical_json result)) db.jobs (λ r. refl)
      h

pub find_job-cancelled :
    (at : Timestamp) (id : JobId) (row : JobRecord) (reason : String) (db : Db) (j : JobId)
    → find_job db id ≡ some row
    → find_job (cancelled at id row reason db) j
      ≡ (if str_eq id j then some (set_cancel (row.revision + 1) at row) else find_job db j)
unfolding find_job insert_event
find_job-cancelled at id row reason db j h =
    find-update_revision id j row (set_cancel (row.revision + 1) at) db.jobs (λ r. refl) h

-- An accepted job is found by its identifier, and the others as before.
pub find_job-accepted :
    (at : Timestamp) (spec_hash : String) (id : JobId) (new : NewJob) (db : Db) (j : JobId)
    → find_job db id ≡ none
    → find_job (accepted at spec_hash id new db) j
      ≡ (if str_eq id j then some (queued_job at spec_hash id new) else find_job db j)
unfolding find_job insert_event find?
find_job-accepted at spec_hash id new db j h = rw find?-append (elim (Bool-cases (str_eq id j)) [
  | inl same ↦ ground (arith, h, ap (λ k. find? (has_id k) db.jobs) (eq_of_str_eq id j same), same)
  | inr other ↦ ground (arith, other)
])
