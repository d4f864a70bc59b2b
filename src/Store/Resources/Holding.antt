-- ===== src/Store/Resources/Holding.antt =====
-- Who holds a lock, and what lock operations leave to its holder: `try_acquire_resource` and
-- `release_resource` of crates/maxops-store/src/lib.rs.

use mathlib.Core.Option.{some-injective}
use maxops.Prelude.{
  String, ◌≡◌, refl, sym, ◌∙◌, subst, Bool, Bool-cases, true, false, ◌&&◌, some, [], ◌∷◌, ok, inl,
  inr, arith, str_eq, str_eq_refl, str_eq_comm, eq_of_str_eq, find?, find?-append,
  find?-update_where, find?-holds, find?-delete_where_kept,
}
use maxops.Proto.Ids.{JobId}
use maxops.Proto.Jobs.{Timestamp, JobRecord}
use maxops.Proto.JobState
use maxops.Store.Db.{Db, ResourceRow}
use maxops.Store.Errors.{wrapping_next}
use maxops.Store.Jobs.{find_job}
use maxops.Store.Resources.{
  is_resource, find_resource, has_revision, take_over, new_resource, acquire_tx, is_held,
  release_resource,
}
use maxops.Store.Resources.Exclusion.{Acquired}

-- The lock belongs to the job, and the job is not terminal.
pub record Holds (db : Db) (kind key : String) (owner : JobId) : Type 0 where
  pub row : ResourceRow
  pub job : JobRecord
  pub found : find_resource db kind key ≡ some row
  pub mine : row.owner_job_id ≡ owner
  pub owned : find_job db owner ≡ some job
  pub live : JobState.is_terminal job.state ≡ false

same_key :
    (kind key kind' key' : String) (row : ResourceRow)
    → is_resource kind key row ≡ true
    → is_resource kind' key' row ≡ true
    → (kind ≡ kind') × (key ≡ key')
same_key kind key kind' key' row h h' = (
  ground (arith, eq_of_str_eq row.resource_kind kind, eq_of_str_eq row.resource_kind kind'),
  ground (arith, eq_of_str_eq row.resource_key key, eq_of_str_eq row.resource_key key'),
)

-- The update of a stale lock does not meet the row of a live holder.
untouched :
    (db : Db) (kind key kind' key' : String) (owner : JobId) (h : Holds db kind key owner)
    (row : ResourceRow) (job : JobRecord)
    → find_resource db kind' key' ≡ some row
    → find_job db row.owner_job_id ≡ some job
    → JobState.is_terminal job.state ≡ true
    → is_resource kind' key' h.row ≡ false
unfolding find_resource
untouched db kind key kind' key' owner h row job found owned over =
    elim (Bool-cases (is_resource kind' key' h.row)) [
      | inr n ↦ n
      | inl y ↦
          let (k, q) =
            same_key kind key kind' key' h.row
              (find?-holds (is_resource kind key) db.resources h.found) y in
          let rows : h.row ≡ row = some-injective _ _ (sym h.found ∙ (cc (k, q, found))) in
          let jobs : h.job ≡ job = some-injective _ _ (sym h.owned ∙ (cc (rows, h.mine, owned))) in
          absurd (ground (arith, h.live, jobs))
    ]

module _ (at : Timestamp) (kind key : String) (owner : JobId) (kind' key' : String) (owner' : JobId)
    (db : Db) where
  -- No attempt by anyone takes a lock from a live holder.
  pub acquire-Holds :
      {db' : Db} {b : Bool}
      → Acquired at kind' key' owner' db db' b
      → Holds db kind key owner
      → Holds db' kind key owner
  unfolding find_resource find_job
  acquire-Holds (Acquired.own _ _ _ e _) h = subst (λ d. Holds d kind key owner) (sym e) h
  acquire-Holds (Acquired.busy _ _ _ _ _ _ e _) h = subst (λ d. Holds d kind key owner) (sym e) h
  acquire-Holds (Acquired.stale row job found owned _ over e _) h =
      subst (λ d. Holds d kind key owner) (sym e)
        (record {
          row = h.row;
          job = h.job;
          found =
              rw
                (find?-update_where (has_revision kind' key' row.revision) (is_resource kind key)
                  (take_over at owner' (wrapping_next row.revision)) db.resources (λ x. refl))
                (rw h.found
                  (rw (untouched db kind key kind' key' owner h row job found owned over)));
          mine = h.mine;
          owned = h.owned;
          live = h.live;
        })
  acquire-Holds (Acquired.unheld n e _) h =
      subst (λ d. Holds d kind key owner) (sym e)
        (record {
          row = h.row;
          job = h.job;
          found =
              rw
                (find?-append (is_resource kind key) db.resources
                  (new_resource at kind' key' owner' ∷ []))
                (rw h.found);
          mine = h.mine;
          owned = h.owned;
          live = h.live;
        })

  -- A release by another owner, or of another lock, leaves the holder alone.
  pub release-Holds :
      (str_eq kind' kind && str_eq key' key && str_eq owner' owner) ≡ false
      → Holds db kind key owner
      → Holds (release_resource kind' key' owner' db).0 kind key owner
  unfolding find_resource find_job release_resource
  release-Holds other h = record {
    row = h.row;
    job = h.job;
    found =
        find?-delete_where_kept (is_held kind' key' owner') (is_resource kind key) db.resources
          h.found
          (ground (
            arith,
            h.mine,
            other,
            find?-holds (is_resource kind key) db.resources h.found,
            eq_of_str_eq h.row.resource_kind kind,
            eq_of_str_eq h.row.resource_key key,
            str_eq_comm kind kind',
            str_eq_comm key key',
            str_eq_comm owner owner',
          ));
    mine = h.mine;
    owned = h.owned;
    live = h.live;
  }

module _ (at : Timestamp) (kind key : String) (owner : JobId) (db : Db) where
  -- A successful attempt makes the caller the holder.
  pub Acquired-Holds :
      {db' : Db} {job : JobRecord}
      → Acquired at kind key owner db db' true
      → find_job db owner ≡ some job
      → JobState.is_terminal job.state ≡ false
      → Holds db' kind key owner
  unfolding find_resource find_job find?
  Acquired-Holds {db'} {job} (Acquired.own row found mine e _) owned live =
      subst (λ d. Holds d kind key owner) (sym e)
        (record { row = row; job = job; found = found; mine = mine; owned = owned; live = live })
  Acquired-Holds (Acquired.busy _ _ _ _ _ _ _ b) owned live = absurd (ground (arith, b))
  Acquired-Holds {db'} {job} (Acquired.stale row _ found _ _ _ e _) owned live =
      subst (λ d. Holds d kind key owner) (sym e)
        (record {
          row = take_over at owner (wrapping_next row.revision) row;
          job = job;
          found =
              rw
                (find?-update_where (has_revision kind key row.revision) (is_resource kind key)
                  (take_over at owner (wrapping_next row.revision)) db.resources (λ x. refl))
                (rw found
                  (rw (find?-holds (is_resource kind key) db.resources found) (ground arith)));
          mine = refl;
          owned = owned;
          live = live;
        })
  Acquired-Holds {db'} {job} (Acquired.unheld n e _) owned live =
      subst (λ d. Holds d kind key owner) (sym e)
        (record {
          row = new_resource at kind key owner;
          job = job;
          found =
              rw
                (find?-append (is_resource kind key) db.resources
                  (new_resource at kind key owner ∷ []))
                (rw n (rw (str_eq_refl kind) (rw (str_eq_refl key))));
          mine = refl;
          owned = owned;
          live = live;
        })

  -- An attempt on a lock of another live job is answered `false` and writes nothing.
  pub acquire-busy :
      (holder : JobId)
      → Holds db kind key holder
      → str_eq holder owner ≡ false
      → acquire_tx at kind key owner db ≡ ok (db, false)
  unfolding acquire_tx
  acquire-busy holder h other = ground (arith, h.found, h.mine, h.owned, h.live)
