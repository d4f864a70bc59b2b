-- ===== src/Store/Jobs/Replay.antt =====
-- The log of events and the table of jobs under `accept_job`, `transition_job` and
-- `request_cancel` of crates/maxops-store/src/lib.rs.
use maxops.Prelude.{
  ℕ, String, ◌≡◌, ap, true, false, Bool, Bool-cases, Option, none, some, inl, inr, arith, ok,
  str_eq, eq_of_str_eq, subst, sym, second-ok,
}
use maxops.Proto.Ids.{JobId}
use maxops.Proto.Json.{Value}
use maxops.Proto.Jobs.{Timestamp, NewJob, JobRecord}
use maxops.Proto.JobState
use maxops.Proto.JobState.{JobState}
use maxops.Store.Db.{Db}
use maxops.Store.Errors.{transact_inv}
use maxops.Store.Canonical.{job_spec_hash}
use maxops.Store.Jobs.{
  find_job, validate_new_job, accept_tx, transition_tx, cancel_tx, accept_job, transition_job,
  request_cancel,
}
use maxops.Store.Jobs.Inversion.{
  transitioned, cancelled, accepted, transition_tx-ok, cancel_tx-ok, accept_tx-ok,
}
use maxops.Store.Jobs.Log.{IsReplayed, replay-insert_event}
use maxops.Store.Jobs.Rows.{find_job-transitioned, find_job-cancelled, find_job-accepted}

module _ (at : Timestamp) (id : JobId) (db : Db) (inv : IsReplayed db) where
  transitioned-IsReplayed :
      (row : JobRecord) (next : JobState) (payload : Value) (result : Option Value)
      → find_job db id ≡ some row
      → JobState.can_transition_to row.state next ≡ true
      → IsReplayed (transitioned at id row next payload result db)
  unfolding JobState.eq
  transitioned-IsReplayed row next payload result found allowed = record {
    replayed = λ j.
        rw (replay-insert_event, find_job-transitioned at id row next payload result db j found)
          (elim (Bool-cases (str_eq id j)) [
            | inl same ↦ ground (
              arith,
              found,
              inv.replayed j,
              ap (find_job db) (eq_of_str_eq id j same),
              same,
              allowed,
            )
            | inr other ↦ ground (arith, inv.replayed j, other)
          ]);
  }

  cancelled-IsReplayed :
      (row : JobRecord) (reason : String)
      → find_job db id ≡ some row
      → JobState.is_terminal row.state ≡ false
      → IsReplayed (cancelled at id row reason db)
  unfolding JobState.eq
  cancelled-IsReplayed row reason found live = record {
    replayed = λ j.
        rw (replay-insert_event, find_job-cancelled at id row reason db j found)
          (elim (Bool-cases (str_eq id j)) [
            | inl same ↦ ground (
              arith,
              found,
              inv.replayed j,
              ap (find_job db) (eq_of_str_eq id j same),
              same,
              live,
            )
            | inr other ↦ ground (arith, inv.replayed j, other)
          ]);
  }

  pub accepted-IsReplayed :
      (spec_hash : String) (new : NewJob)
      → find_job db id ≡ none
      → IsReplayed (accepted at spec_hash id new db)
  accepted-IsReplayed spec_hash new absent = record {
    replayed = λ j.
        rw (replay-insert_event, find_job-accepted at spec_hash id new db j absent)
          (elim (Bool-cases (str_eq id j)) [
            | inl same ↦
                ground
                  (arith, absent, inv.replayed j, ap (find_job db) (eq_of_str_eq id j same), same)
            | inr other ↦ ground (arith, inv.replayed j, other)
          ]);
  }

  -- A transition keeps the log and the table in step, whether it commits or is refused: for every
  -- job the fold over its events gives the state, the revision, the cancellation mark and the two times of its row.
  pub transition_job-IsReplayed :
      (expected : ℕ) (next : JobState) (payload : Value) (result : Option Value)
      → IsReplayed (transition_job at id expected next payload result db).0
  unfolding transition_job
  transition_job-IsReplayed expected next payload result =
      transact_inv IsReplayed db (transition_tx at id expected next payload result db) _ inv
        λ db' _ h.
          let (row, found, _, allowed, _, e) =
            transition_tx-ok at id expected next payload result db h in
          subst IsReplayed (sym e) (transitioned-IsReplayed row next payload result found allowed)

  -- A cancellation request keeps the log and the table in step.
  pub request_cancel-IsReplayed :
      (expected : ℕ) (reason : String) → IsReplayed (request_cancel at id expected reason db).0
  unfolding request_cancel
  request_cancel-IsReplayed expected reason =
      transact_inv IsReplayed db (cancel_tx at id expected reason db) _ inv λ db' _ h.
        let (row, found, _, live, _, e) = cancel_tx-ok at id expected reason db h in
        subst IsReplayed (sym e) (cancelled-IsReplayed row reason found live)

  accept_tx-IsReplayed :
      (spec_hash : String) (new : NewJob) (db' : Db) (created : Bool)
      → accept_tx at spec_hash id new db ≡ ok (db', created)
      → IsReplayed db'
  accept_tx-IsReplayed spec_hash new db' created h = elim (accept_tx-ok at spec_hash id new db h) [
    | inl (_, _, _, e, _) ↦ subst IsReplayed (sym e) inv
    | inr (absent, e, _) ↦ subst IsReplayed (sym e) (accepted-IsReplayed spec_hash new absent)
  ]

  -- An acceptance keeps the log and the table in step.
  pub accept_job-IsReplayed :
      (fingerprint : Value → String) (new : NewJob)
      → IsReplayed (accept_job fingerprint at id new db).0
  unfolding accept_job
  accept_job-IsReplayed fingerprint new = transact_inv IsReplayed db _ _ inv λ db' created h.
      accept_tx-IsReplayed (job_spec_hash fingerprint new) new db' created
        (second-ok (validate_new_job "upstream-job-id" new) h)
