-- ===== src/Store/Submit/Laws.antt =====
-- `submit_linked_job` of crates/maxops-store/src/lib.rs and the invariants of jobs.
use maxops.Prelude.{String, ◌≡◌, refl, Option, none, second-ok, inl, inr, sym, subst, List}
use maxops.Proto.Ids.{JobId}
use maxops.Proto.Json.{Value}
use maxops.Proto.Jobs.{Timestamp, NewJob}
use maxops.Store.Db.{Db, ChangeRow}
use maxops.Store.Canonical.{job_spec_hash}
use maxops.Store.Errors.{transact_inv}
use maxops.Store.Jobs.{find_job, insert_event, validate_new_job}
use maxops.Store.Jobs.Inversion.{accepted}
use maxops.Store.Jobs.Log.{IsReplayed, IsReplayed-same}
use maxops.Store.Jobs.Replay.{accepted-IsReplayed}
use maxops.Store.Jobs.Evolution.{JobsEvolve, JobsEvolve-refl, JobsEvolve-trans, JobsEvolve-same}
use maxops.Store.Jobs.Steps.{accepted-evolves}
use maxops.Store.Jobs.Keys.{HasUniqueJobs, accepted-HasUniqueJobs}
use maxops.Store.Changes.{ChangeJobLink}
use maxops.Store.Submit.{submit_linked_job}
use maxops.Store.Submit.Inversion.{submitted_db, submit_tx-ok}

module _ (at : Timestamp) (id : JobId) (db : Db) where
  -- For the jobs and their events a new submission is an acceptance.
  submitted_db-jobs :
      (spec_hash key : String) (new : NewJob) (changes : List ChangeRow)
      → (submitted_db at spec_hash key id new changes db).jobs
        ≡ (accepted at spec_hash id new db).jobs
  unfolding insert_event
  submitted_db-jobs spec_hash key new changes = refl

  submitted_db-job_events :
      (spec_hash key : String) (new : NewJob) (changes : List ChangeRow)
      → (submitted_db at spec_hash key id new changes db).job_events
        ≡ (accepted at spec_hash id new db).job_events
  unfolding insert_event
  submitted_db-job_events spec_hash key new changes = refl

  -- What a repeated submission keeps and an acceptance keeps, a submission keeps, if it looks at
  -- nothing but jobs and their events.
  submit_keeps :
      (P : Db → Type 0)
      → ((d e : Db) → e.jobs ≡ d.jobs → e.job_events ≡ d.job_events → P d → P e)
      → P db
      → ((spec_hash : String) (new : NewJob)
          → find_job db id ≡ none
          → P (accepted at spec_hash id new db))
      → (fingerprint : Value → String) (key : String) (new : NewJob) (link : Option ChangeJobLink)
      → P (submit_linked_job fingerprint at key id new link db).0
  unfolding submit_linked_job
  submit_keeps P same h new_job fingerprint key new link = transact_inv P db _ _ h λ db' receipt q.
      elim (submit_tx-ok at (job_spec_hash fingerprint new) key id new link db
        (second-ok (validate_new_job key new) q)) [
          | inl (_, _, _, e, _) ↦ subst P (sym e) h
          | inr (changes, _, absent, e, _) ↦ subst P (sym e) (
              same _ _ (submitted_db-jobs (job_spec_hash fingerprint new) key new changes)
                (submitted_db-job_events (job_spec_hash fingerprint new) key new changes)
                (new_job (job_spec_hash fingerprint new) new absent))
        ]

  -- A submission, linked or not, keeps the log and the table of jobs in step.
  pub submit_linked_job-IsReplayed :
      (fingerprint : Value → String) (key : String) (new : NewJob) (link : Option ChangeJobLink)
      → IsReplayed db
      → IsReplayed (submit_linked_job fingerprint at key id new link db).0
  submit_linked_job-IsReplayed fingerprint key new link inv =
      submit_keeps IsReplayed (λ d e p q v. IsReplayed-same p q v) inv
        (λ spec_hash n absent. accepted-IsReplayed at id db inv spec_hash n absent) fingerprint key
        new link

  pub submit_linked_job-HasUniqueJobs :
      (fingerprint : Value → String) (key : String) (new : NewJob) (link : Option ChangeJobLink)
      → HasUniqueJobs db
      → HasUniqueJobs (submit_linked_job fingerprint at key id new link db).0
  submit_linked_job-HasUniqueJobs fingerprint key new link u =
      submit_keeps HasUniqueJobs (λ d e p _ v. rw p v) u
        (λ spec_hash n absent. accepted-HasUniqueJobs at spec_hash id n db absent u) fingerprint key
        new link

  pub submit_linked_job-evolves :
      (fingerprint : Value → String) (key : String) (new : NewJob) (link : Option ChangeJobLink)
      → JobsEvolve db (submit_linked_job fingerprint at key id new link db).0
  submit_linked_job-evolves fingerprint key new link =
      submit_keeps (JobsEvolve db) (λ d e p _ v. JobsEvolve-trans v (JobsEvolve-same p))
        (JobsEvolve-refl db) (λ spec_hash n absent. accepted-evolves at id db spec_hash n absent)
        fingerprint key new link
