-- ===== src/Store/Jobs/Stale.antt =====
-- A second writer with the revision that the first one used: `transition_job` and `request_cancel`
-- of crates/maxops-store/src/lib.rs.
use maxops.Prelude.{ℕ, String, ◌+◌, ◌≡◌, true, Option, some, arith, ok, err, str_eq_refl, ap}
use maxops.Proto.Ids.{JobId}
use maxops.Proto.Json.{Value}
use maxops.Proto.Jobs.{Timestamp, JobRecord}
use maxops.Proto.JobState.{JobState}
use maxops.Proto.Names.{bounded}
use maxops.Store.Db.{Db}
use maxops.Store.Errors.{transact, job_revision_changed}
use maxops.Store.Jobs.{find_job, transition_tx, cancel_tx, transition_job, request_cancel}
use maxops.Store.Jobs.Rows.{find_job-transitioned}
use maxops.Store.Jobs.Cas.{next_row, transition_job-inverts}

-- A stale revision is refused and nothing is written.
stale_transition :
    (at : Timestamp) (id : JobId) (expected : ℕ) (next : JobState) (payload : Value)
    (result : Option Value) (db : Db) (row : JobRecord)
    → find_job db id ≡ some row
    → row.revision ≡ expected + 1
    → transition_job at id expected next payload result db ≡ (db, err job_revision_changed)
unfolding transition_job transition_tx transact
stale_transition at id expected next payload result db row found moved = ground arith

stale_cancel :
    (at : Timestamp) (id : JobId) (expected : ℕ) (reason : String) (db : Db) (row : JobRecord)
    → bounded 1024 reason ≡ true
    → find_job db id ≡ some row
    → row.revision ≡ expected + 1
    → request_cancel at id expected reason db ≡ (db, err job_revision_changed)
unfolding request_cancel cancel_tx transact
stale_cancel at id expected reason db row valid found moved = ground arith

-- After a transition has committed, a transition to any state and a cancellation with a valid
-- reason that still carry the old revision are refused for that revision and write nothing.
pub transition_job-excludes :
    (at : Timestamp) (id : JobId) (expected : ℕ) (next : JobState) (payload : Value)
    (result : Option Value) (db : Db) {reply : JobRecord}
    → (transition_job at id expected next payload result db).1 ≡ ok reply
    → let db' = (transition_job at id expected next payload result db).0 in
      ((at' : Timestamp) (next' : JobState) (payload' : Value) (result' : Option Value)
        → transition_job at' id expected next' payload' result' db'
          ≡ (db', err job_revision_changed))
      × ((at' : Timestamp) (reason : String)
          → bounded 1024 reason ≡ true
          → request_cancel at' id expected reason db' ≡ (db', err job_revision_changed))
transition_job-excludes at id expected next payload result db h =
    let (row, c, e) = transition_job-inverts at id expected next payload result db h in
    let d = (transition_job at id expected next payload result db).0 in
    let found : find_job d id ≡ some (next_row at id expected next payload result db row) =
      rw e
        (rw (find_job-transitioned at id row next payload result db id c.found) (rw str_eq_refl)) in
    let moved : row.revision + 1 ≡ expected + 1 = ap (λ n. n + 1) c.current in
    (
      λ at' next' payload' result'.
          stale_transition at' id expected next' payload' result' d _ found moved,
      λ at' reason valid. stale_cancel at' id expected reason d _ valid found moved,
    )
