-- ===== src/Store/Jobs/Steps.antt =====
-- Each operation on jobs of crates/maxops-store/src/lib.rs and the evolution of the rows of `jobs`.
use maxops.Prelude.{
  ℕ, String, ◌≡◌, refl, Bool, Bool-cases, Option, none, some, inl, inr, arith, ok, str_eq,
  eq_of_str_eq, ap, sym, subst, second-ok, if◌then◌else◌,
}
use maxops.Proto.Ids.{JobId}
use maxops.Proto.Json.{Value}
use maxops.Proto.Jobs.{Timestamp, NewJob, JobRecord}
use maxops.Proto.JobState.{JobState}
use maxops.Proto.JobState.Graph.{settled_stuck, settled-is_terminal, Reaches, here}
use maxops.Store.Db.{Db}
use maxops.Store.Errors.{transact_inv}
use maxops.Store.Canonical.{job_spec_hash}
use maxops.Store.Jobs.{
  find_job, validate_new_job, accept_tx, transition_tx, cancel_tx, accept_job, transition_job,
  request_cancel,
}
use maxops.Store.Jobs.Inversion.{
  transitioned, cancelled, accepted, transition_tx-ok, cancel_tx-ok, accept_tx-ok,
}
use maxops.Store.Jobs.Rows.{find_job-transitioned, find_job-cancelled, find_job-accepted}
use maxops.Store.Jobs.Evolution.{Evolves, Evolves-refl, JobsEvolve, JobsEvolve-refl}

module _ (at : Timestamp) (id : JobId) (db : Db) where
  one-Evolves :
      (db' : Db) (row row' : JobRecord)
      → find_job db id ≡ some row
      → Evolves row row'
      → ((j : JobId) → find_job db' j ≡ (if str_eq id j then some row' else find_job db j))
      → JobsEvolve db db'
  one-Evolves db' row row' found e look = record {
    job = λ j r h. elim (Bool-cases (str_eq id j)) [
      | inl same ↦
          let here_row : row ≡ r =
            ground (arith, found, h, ap (find_job db) (eq_of_str_eq id j same)) in
          (row', ground (arith, look j, same), subst (λ x. Evolves x row') here_row e)
      | inr other ↦ (r, ground (arith, look j, other, h), Evolves-refl r)
    ];
  }

  -- The only change that a committed transition makes to `jobs` is a step of its job.
  pub transition_job-evolves :
      (expected : ℕ) (next : JobState) (payload : Value) (result : Option Value)
      → JobsEvolve db (transition_job at id expected next payload result db).0
  unfolding transition_job
  transition_job-evolves expected next payload result =
      transact_inv (JobsEvolve db) db (transition_tx at id expected next payload result db) _
        (JobsEvolve-refl db)
        λ db' _ h.
          let (row, found, _, allowed, _, e) =
            transition_tx-ok at id expected next payload result db h in
          subst (JobsEvolve db) (sym e) (
            one-Evolves (transitioned at id row next payload result db) row _ found
              (record {
                job_id = refl;
                principal = refl;
                host = refl;
                operation = refl;
                spec = refl;
                spec_hash = refl;
                created_at = refl;
                state = Reaches.next here allowed;
                revision = omega arith;
                unchanged = λ same. absurd (omega arith);
                settled_kept =
                    λ k. absurd (ground (arith, settled_stuck row.state next k, allowed));
                cancel_kept = λ k. k;
              })
              (λ j. find_job-transitioned at id row next payload result db j found))

  pub request_cancel-evolves :
      (expected : ℕ) (reason : String) → JobsEvolve db (request_cancel at id expected reason db).0
  unfolding request_cancel
  request_cancel-evolves expected reason =
      transact_inv (JobsEvolve db) db (cancel_tx at id expected reason db) _ (JobsEvolve-refl db)
        λ db' _ h.
          let (row, found, _, live, _, e) = cancel_tx-ok at id expected reason db h in
          subst (JobsEvolve db) (sym e) (
            one-Evolves (cancelled at id row reason db) row _ found
              (record {
                job_id = refl;
                principal = refl;
                host = refl;
                operation = refl;
                spec = refl;
                spec_hash = refl;
                created_at = refl;
                state = here;
                revision = omega arith;
                unchanged = λ same. absurd (omega arith);
                settled_kept = λ k. absurd (ground (arith, settled-is_terminal row.state k, live));
                cancel_kept = λ _. refl;
              })
              (λ j. find_job-cancelled at id row reason db j found))

  pub accepted-evolves :
      (spec_hash : String) (new : NewJob)
      → find_job db id ≡ none
      → JobsEvolve db (accepted at spec_hash id new db)
  accepted-evolves spec_hash new absent = record {
    job = λ j r h. elim (Bool-cases (str_eq id j)) [
      | inl same ↦ absurd (ground (arith, absent, h, ap (find_job db) (eq_of_str_eq id j same)))
      | inr other ↦ (
        r,
        ground (arith, find_job-accepted at spec_hash id new db j absent, other, h),
        Evolves-refl r,
      )
    ];
  }

  accept_tx-evolves :
      (spec_hash : String) (new : NewJob) (db' : Db) (created : Bool)
      → accept_tx at spec_hash id new db ≡ ok (db', created)
      → JobsEvolve db db'
  accept_tx-evolves spec_hash new db' created h = elim (accept_tx-ok at spec_hash id new db h) [
    | inl (_, _, _, e, _) ↦ subst (JobsEvolve db) (sym e) (JobsEvolve-refl db)
    | inr (absent, e, _) ↦ subst (JobsEvolve db) (sym e) (accepted-evolves spec_hash new absent)
  ]

  pub accept_job-evolves :
      (fingerprint : Value → String) (new : NewJob)
      → JobsEvolve db (accept_job fingerprint at id new db).0
  unfolding accept_job
  accept_job-evolves fingerprint new =
      transact_inv (JobsEvolve db) db _ _ (JobsEvolve-refl db) λ db' created h.
        accept_tx-evolves (job_spec_hash fingerprint new) new db' created
          (second-ok (validate_new_job "upstream-job-id" new) h)
