-- ===== src/Store/Resources.antt =====
-- Target-local locks: `try_acquire_resource` and `release_resource` of
-- crates/maxops-store/src/lib.rs.
pub mod Exclusion
pub mod Holding
pub mod Calls
pub mod Locking
use maxops.Prelude.{
  ℕ, ◌+◌, String, Bool, true, false, not, ◌&&◌, Option, none, some, [], ◌∷◌, ◌++◌, ok, ◌>>=◌, ◌>>◌,
  ensure, ◌==◌, str_eq, if◌then◌else◌, find?, update_where, delete_where, count_where, is_some,
}
use maxops.Proto.Ids.{JobId}
use maxops.Proto.Jobs.{Timestamp, JobRecord}
use maxops.Proto.JobState
use maxops.Proto.Names.{is_empty}
use maxops.Store.Db.{Db, ResourceRow}
use maxops.Store.Errors.{Outcome, constraint, empty_resource, wrapping_next, transact}
use maxops.Store.Jobs.{find_job}

-- `WHERE resource_kind = ? AND resource_key = ?`
abbrev pub is_resource : String → String → ResourceRow → Bool
is_resource kind key r = str_eq r.resource_kind kind && str_eq r.resource_key key

unfoldable pub find_resource : Db → String → String → Option ResourceRow
find_resource db kind key = find? (is_resource kind key) db.resources

-- The row with the job of its owner, by the JOIN; none if there is no such job.
abbrev with_owner : Db → Option ResourceRow → Option (ResourceRow × JobRecord)
with_owner db none = none
with_owner db (some row) = elim (find_job db row.owner_job_id) [
  | none ↦ none
  | some job ↦ some (row, job)
]

abbrev pub has_revision : String → String → ℕ → ResourceRow → Bool
has_revision kind key revision r = is_resource kind key r && r.revision == revision

abbrev pub take_over : Timestamp → JobId → ℕ → ResourceRow → ResourceRow
take_over at owner revision r = record r {
  owner_job_id = owner;
  revision = revision;
  acquired_at = at;
}

abbrev pub new_resource : Timestamp → String → String → JobId → ResourceRow
new_resource at kind key owner = record {
  resource_kind = kind;
  resource_key = key;
  owner_job_id = owner;
  revision = 1;
  acquired_at = at;
}

-- The schema refuses a second row with the key, and an owner, new or taking over,
-- that is no job.
unfoldable pub acquire_tx : Timestamp → String → String → JobId → Db → Outcome (Db × Bool)
acquire_tx at kind key owner db = elim (with_owner db (find_resource db kind key)) [
  | some (row, job) ↦
      if str_eq row.owner_job_id owner
      then ok (db, true)
      else if not (JobState.is_terminal job.state)
      then ok (db, false)
      else do
        ensure (is_some (find_job db owner)) constraint
        ok (
          record db {
            resources =
                update_where (has_revision kind key row.revision)
                  (take_over at owner (wrapping_next row.revision)) db.resources;
          },
          true,
        )
  | none ↦ do
    ensure (not (is_some (find_resource db kind key))) constraint
    ensure (is_some (find_job db owner)) constraint
    ok (record db { resources = db.resources ++ new_resource at kind key owner ∷ [] }, true)
]

unfoldable pub try_acquire_resource : Timestamp → String → String → JobId → Db → Db × Outcome Bool
try_acquire_resource at kind key owner db =
    transact db
      (do
        ensure (not (is_empty kind) && not (is_empty key)) empty_resource
        acquire_tx at kind key owner db)
      (λ db' acquired. ok acquired)

-- `WHERE resource_kind = ? AND resource_key = ? AND owner_job_id = ?`
abbrev pub is_held : String → String → JobId → ResourceRow → Bool
is_held kind key owner r = is_resource kind key r && str_eq r.owner_job_id owner

unfoldable pub release_resource : String → String → JobId → Db → Db × Outcome Bool
release_resource kind key owner db = (
  record db { resources = delete_where (is_held kind key owner) db.resources },
  ok (count_where (is_held kind key owner) db.resources == 1),
)
