-- ===== src/Store/Jobs/Cas.antt =====
-- Compare and swap on jobs: `transition_job` of crates/maxops-store/src/lib.rs.
use mathlib.Core.Option
use mathlib.Core.Option.{some-injective}
use maxops.Prelude.{
  ℕ, ◌+◌, ◌≤◌, ◌≡◌, ◌↔◌, refl, true, Option, some, arith, ok, err, is_ok, ok-injective, ◌∙◌,
  str_eq_refl, ap, sym, inl, inr, Result-cases,
}
use maxops.Proto.Ids.{JobId}
use maxops.Proto.Json.{Value}
use maxops.Proto.Jobs.{Timestamp, JobRecord}
use maxops.Proto.JobState
use maxops.Proto.JobState.{JobState}
use maxops.Store.Db.{Db}
use maxops.Store.Errors.{StoreError, transact, transact_error, i64_max, to_i64, next_revision}
use maxops.Store.Canonical.{canonical_json}
use maxops.Store.Jobs.{find_job, get_job, set_state, transition_tx, transition_job}
use maxops.Store.Jobs.Inversion.{transitioned, transition_tx-ok}
use maxops.Store.Jobs.Rows.{find_job-transitioned}
use maxops.Store.Jobs.Keys.{HasUniqueJobs, count-has_id_revision}

module _ (at : Timestamp) (id : JobId) (expected : ℕ) (next : JobState) (payload : Value)
    (result : Option Value) (db : Db) where
  -- The job is there at the expected revision, the table allows the step, and the next revision
  -- fits the column.
  pub record CanTransition (row : JobRecord) : Type 0 where
    pub found : find_job db id ≡ some row
    pub current : row.revision ≡ expected
    pub allowed : JobState.can_transition_to row.state next ≡ true
    pub fits : row.revision + 1 ≤ i64_max

  transition_tx-commits :
      (row : JobRecord)
      → HasUniqueJobs db
      → CanTransition row
      → transition_tx at id expected next payload result db
        ≡ ok (transitioned at id row next payload result db, tt)
  unfolding transition_tx to_i64 next_revision
  transition_tx-commits row u c = ground (
    arith,
    c.found,
    c.current,
    c.allowed,
    c.fits,
    count-has_id_revision db id row row.revision u c.found refl,
  )

  -- The row of the job after a transition.
  abbrev pub next_row : JobRecord → JobRecord
  next_row row = set_state next (row.revision + 1) at (Option.map canonical_json result) row

  pub get_job-transitioned :
      (row : JobRecord)
      → find_job db id ≡ some row
      → get_job (transitioned at id row next payload result db) id ≡ ok (next_row row)
  unfolding get_job
  get_job-transitioned row found =
      rw (find_job-transitioned at id row next payload result db id found) (rw str_eq_refl)

  pub transition_job-commits :
      (row : JobRecord)
      → HasUniqueJobs db
      → CanTransition row
      → transition_job at id expected next payload result db
        ≡ (transitioned at id row next payload result db, ok (next_row row))
  unfolding transition_job transact
  transition_job-commits row u c =
      rw (transition_tx-commits row u c) (rw (get_job-transitioned row c.found))

  pub transition_job-inverts :
      {record' : JobRecord}
      → (transition_job at id expected next payload result db).1 ≡ ok record'
      → (row : JobRecord) × CanTransition row
        × (transition_job at id expected next payload result db
            ≡ (transitioned at id row next payload result db, ok (next_row row)))
  unfolding transition_job transact
  transition_job-inverts h =
      elim (Result-cases (transition_tx at id expected next payload result db)) [
        | inr (e, q) ↦ absurd (ground (arith, q))
        | inl ((db', u), q) ↦
            let (row, found, current, allowed, fits, e) =
              transition_tx-ok at id expected next payload result db q in
            (
              row,
              record { found = found; current = current; allowed = allowed; fits = fits },
              rw q (rw e (rw (get_job-transitioned row found))),
            )
      ]

  pub transition_job-rejects :
      {e : StoreError}
      → (transition_job at id expected next payload result db).1 ≡ err e
      → (transition_job at id expected next payload result db).0 ≡ db
  unfolding transition_job
  transition_job-rejects =
      transact_error db (transition_tx at id expected next payload result db) _ λ db' _ q.
        let (row, found, _, _, _, e) = transition_tx-ok at id expected next payload result db q in
        inr (next_row row, rw e (get_job-transitioned row found))

  -- A transition of a job that is there succeeds exactly when the caller knows its revision, the
  -- table allows the step and the next revision fits a column; then the reply is the row with the
  -- new state, the next revision, the time and the result, and any refusal leaves every table as it was.
  pub transition_job_iff :
      (row : JobRecord)
      → HasUniqueJobs db
      → find_job db id ≡ some row
      → ((is_ok (transition_job at id expected next payload result db).1 ≡ true) ↔ (
          (row.revision ≡ expected)
          × (JobState.can_transition_to row.state next ≡ true)
          × (row.revision + 1 ≤ i64_max)))
        × ((r : JobRecord)
            → (transition_job at id expected next payload result db).1 ≡ ok r
            → r ≡ next_row row)
        × ((e : StoreError)
            → (transition_job at id expected next payload result db).1 ≡ err e
            → (transition_job at id expected next payload result db).0 ≡ db)
  transition_job_iff row u found = (
    (
      λ good. elim (Result-cases (transition_job at id expected next payload result db).1) [
        | inr (e, q) ↦ absurd (ground (arith, q))
        | inl (r, q) ↦
            let (row', c, _) = transition_job-inverts q in
            let same : row ≡ row' = some-injective _ _ (sym found ∙ c.found) in
            (
              ground (arith, c.current, same),
              ground (arith, c.allowed, same),
              ground (arith, c.fits, same),
            )
      ],
      λ (current, allowed, fits). rw (
          transition_job-commits row u
            (record { found = found; current = current; allowed = allowed; fits = fits })),
    ),
    λ r h.
        let (row', c, e) = transition_job-inverts h in
        let same : row ≡ row' = some-injective _ _ (sym found ∙ c.found) in
        ok-injective (sym h ∙ ap (λ p. p.1) e) ∙ ap next_row (sym same),
    λ e h. transition_job-rejects h,
  )
