-- ===== src/Store/Resources/Locking.antt =====
-- Sequences of lock operations, `try_acquire_resource` and `release_resource` of
-- crates/maxops-store/src/lib.rs.
use maxops.Prelude.{
  String, ◌≡◌, sym, Bool, true, false, ◌&&◌, none, some, List, [], ◌∷◌, ◌++◌, ok, arith, subst,
  str_eq, str_eq_refl, eq_of_str_eq, IsUnique, find?-holds, find?-delete_where_gone,
}
use maxops.Proto.Ids.{JobId}
use maxops.Proto.Json.{Value}
use maxops.Store.History
use maxops.Store.History.{JobOperation, apply-evolves}
use maxops.Store.Jobs.Evolution.{JobsEvolve}
use maxops.Store.Resources.Calls.{
  LockOperation, run_locks, is_kept, tx_body, run_locks-evolves, apply-resources, live_before,
}
use maxops.Proto.Jobs.{Timestamp, JobRecord}
use maxops.Proto.JobState
use maxops.Proto.Names.{is_empty}
use maxops.Store.Db.{Db, ResourceRow}
use maxops.Store.Errors.{transact, transact_inv, transact_ok}
use maxops.Store.Jobs.{find_job}
use maxops.Store.Resources.{
  is_resource, find_resource, new_resource, acquire_tx, try_acquire_resource, is_held,
  release_resource,
}
use maxops.Store.Resources.Exclusion.{Acquired, acquire_tx-ok}
use maxops.Store.Resources.Holding.{Holds, acquire-Holds, release-Holds, Acquired-Holds}

module _ (fingerprint : Value → String) (kind key : String) (owner : JobId) where
  -- What operations on jobs leave to the holder, if its job is not terminal after them.
  on_jobs-Holds :
      (op : JobOperation) (db : Db) {after : Db} {now : JobRecord}
      → JobsEvolve (History.apply fingerprint db op) after
      → find_job after owner ≡ some now
      → JobState.is_terminal now.state ≡ false
      → Holds db kind key owner
      → Holds (History.apply fingerprint db op) kind key owner
  unfolding find_resource
  on_jobs-Holds op db evolves found live h =
      let (job, there, _) = (apply-evolves fingerprint db op).job owner h.job h.owned in
      record {
        row = h.row;
        job = job;
        found = rw (apply-resources fingerprint db op) h.found;
        mine = h.mine;
        owned = there;
        live = live_before owner evolves there found live;
      }

  run_locks-Holds :
      (ops : List LockOperation) (db : Db) {now : JobRecord}
      → is_kept kind key owner ops ≡ true
      → find_job (run_locks fingerprint ops db) owner ≡ some now
      → JobState.is_terminal now.state ≡ false
      → Holds db kind key owner
      → Holds (run_locks fingerprint ops db) kind key owner
  unfolding try_acquire_resource
  run_locks-Holds [] db k f l h = h
  run_locks-Holds (LockOperation.try_acquire at kind' key' owner' ∷ ops) db k f l h =
      run_locks-Holds ops _ k f l (
        transact_inv (λ d. Holds d kind key owner) db _ _ h
          λ db' b q.
            acquire-Holds at kind key owner kind' key' owner' db
              (acquire_tx-ok at kind' key' owner' db (tx_body at kind' key' owner' db q)) h)
  run_locks-Holds (LockOperation.release kind' key' owner' ∷ ops) db k f l h =
      run_locks-Holds ops _ (ground (arith, k)) f l
        (release-Holds 0 kind key owner kind' key' owner' db (ground (arith, k)) h)
  run_locks-Holds (LockOperation.on_jobs op ∷ ops) db k f l h = run_locks-Holds ops _ k f l (
      on_jobs-Holds op db (run_locks-evolves fingerprint ops (History.apply fingerprint db op)) f l
        h)

  -- Once a job of the table has been given a lock, then whatever attempts and releases follow, and
  -- whatever jobs are submitted, accepted, moved and cancelled meanwhile, as long as no call
  -- releases the lock in the name of that job and the job is not terminal in the end, its next
  -- attempt is granted, and every attempt of another job is answered `false`; neither changes
  -- anything.
  pub try_acquire_resource-excludes :
      (at : Timestamp) (db : Db) {job now : JobRecord} (ops : List LockOperation)
      → find_job db owner ≡ some job
      → (try_acquire_resource at kind key owner db).1 ≡ ok true
      → is_kept kind key owner ops ≡ true
      → let after = run_locks fingerprint ops (try_acquire_resource at kind key owner db).0 in
        find_job after owner ≡ some now
        → JobState.is_terminal now.state ≡ false
        → (at' : Timestamp) (other : JobId)
        → try_acquire_resource at' kind key other after ≡ (after, ok (str_eq owner other))
  unfolding try_acquire_resource transact acquire_tx
  try_acquire_resource-excludes at db {job} {now} ops owned granted kept found live at' other =
      let (db', b, q, r, e) = transact_ok db _ _ granted in
      let taken = acquire_tx-ok at kind key owner db (tx_body at kind key owner db q) in
      let still : JobState.is_terminal job.state ≡ false =
        live_before owner
          (run_locks-evolves fingerprint (LockOperation.try_acquire at kind key owner ∷ ops) db)
          owned found live in
      let h = run_locks-Holds ops (try_acquire_resource at kind key owner db).0 kept found live (
        subst (λ d. Holds d kind key owner) (sym e)
          (Acquired-Holds at kind key owner db
            (subst (λ t. Acquired at kind key owner db db' t) (ground (arith, r)) taken) owned
            still)) in
      ground (arith, q, h.found, h.mine, h.owned, h.live)

abbrev pub same_resource : ResourceRow → ResourceRow → Bool
same_resource x y = str_eq x.resource_kind y.resource_kind && str_eq x.resource_key y.resource_key

abbrev pub HasUniqueResources : Db → Type 0
HasUniqueResources db = IsUnique same_resource db.resources

keyed_same :
    (kind key : String) (x y : ResourceRow)
    → is_resource kind key x ≡ true
    → is_resource kind key y ≡ true
    → same_resource x y ≡ true
keyed_same kind key x y hx hy = ground (
  arith,
  eq_of_str_eq x.resource_kind kind,
  eq_of_str_eq x.resource_key key,
  eq_of_str_eq y.resource_kind kind,
  eq_of_str_eq y.resource_key key,
  str_eq_refl kind,
  str_eq_refl key,
)

freed :
    (kind key : String) (owner : JobId) (db : Db) {row : ResourceRow}
    → HasUniqueResources db
    → find_resource db kind key ≡ some row
    → row.owner_job_id ≡ owner
    → find_resource (release_resource kind key owner db).0 kind key ≡ none
unfolding find_resource release_resource
freed kind key owner db {row} u found mine =
    find?-delete_where_gone same_resource (is_held kind key owner) (is_resource kind key)
      db.resources (keyed_same kind key) u found
      (ground
        (arith, mine, str_eq_refl owner, find?-holds (is_resource kind key) db.resources found))

-- When keys of locks are unique, a release by the owner of a lock frees it: with a kind and a key
-- that are not empty, the next job that attempts it, whatever the state of the former owner, is
-- granted it, as a new row at revision 1, if the job is in the table.
pub release_resource-frees :
    (kind key : String) (owner : JobId) (db : Db) {row : ResourceRow}
    → HasUniqueResources db
    → find_resource db kind key ≡ some row
    → row.owner_job_id ≡ owner
    → is_empty kind ≡ false
    → is_empty key ≡ false
    → (at : Timestamp) (next : JobId) {job : JobRecord} → find_job db next ≡ some job
    → let freed_db = (release_resource kind key owner db).0 in
      try_acquire_resource at kind key next freed_db ≡ (
        record freed_db { resources = freed_db.resources ++ new_resource at kind key next ∷ [] },
        ok true,
      )
unfolding try_acquire_resource transact acquire_tx find_job release_resource
release_resource-frees kind key owner db {row} u found mine k q at next {job} there =
    ground (arith, freed kind key owner db u found mine)
