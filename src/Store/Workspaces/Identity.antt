-- ===== src/Store/Workspaces/Identity.antt =====
-- The identity of a workspace under `create_workspace`, `record_workspace` and
-- `transition_workspace` of crates/maxops-store/src/lib.rs.

use maxops.Prelude.{
  ℕ, ◌+◌, String, ◌≡◌, refl, subst, Bool-cases, Option, Option-cases, some, List, [], ◌∷◌, ◌++◌, ok,
  inl, inr, arith, find?, find?-append, find?-update_where, find?-upsert_there, update_where,
  upsert,
}
use maxops.Proto.Ids.{WorkspaceId}
use maxops.Proto.Jobs.{Timestamp}
use maxops.Proto.WorkspaceState.{WorkspaceState}
use maxops.Proto.Workspaces.{WorkspaceRecord}
use maxops.Store.Db.{Db}
use maxops.Store.Errors.{transact_inv, to_i64, next_revision}
use maxops.Store.Workspaces.{
  is_workspace, find_workspace, CreateWorkspace, new_workspace, create_workspace_tx,
  create_workspace, observe, observed, record_tx, record_workspace, is_owned_at, edit,
  transition_workspace_tx, transition_workspace,
}

-- A call of one of the operations with its arguments.
pub data WorkspaceOperation : Type 0 where
  create : Timestamp → CreateWorkspace → WorkspaceOperation
  observation : WorkspaceRecord → WorkspaceOperation
  transition :
      WorkspaceId → String → ℕ → String → Option String → WorkspaceState → WorkspaceOperation

abbrev pub apply_workspace : WorkspaceOperation → Db → Db
apply_workspace (WorkspaceOperation.create at c) db = (create_workspace at c db).0
apply_workspace (WorkspaceOperation.observation w) db = (record_workspace w db).0
apply_workspace (WorkspaceOperation.transition id creator n tree commit state) db =
    (transition_workspace id creator n tree commit state db).0

abbrev pub run_workspaces : List WorkspaceOperation → Db → Db
run_workspaces [] db = db
run_workspaces (op ∷ ops) db = run_workspaces ops (apply_workspace op db)

-- The workspace is there, with the identity of `w`.
pub record HasIdentity (w : WorkspaceRecord) (db : Db) : Type 0 where
  pub row : WorkspaceRecord
  pub found : find_workspace db w.workspace_id ≡ some row
  pub repository : row.repository ≡ w.repository
  pub executor : row.executor ≡ w.executor
  pub base_commit : row.base_commit ≡ w.base_commit
  pub creator : row.creator ≡ w.creator
  pub created_at : row.created_at ≡ w.created_at

module _ (w : WorkspaceRecord) (db : Db) (h : HasIdentity w db) where
  -- A row that differs at most in the columns that the operations assign.
  kept :
      (rows : List WorkspaceRecord) (row : WorkspaceRecord)
      → find? (is_workspace w.workspace_id) rows ≡ some row
      → row.repository ≡ h.row.repository
      → row.executor ≡ h.row.executor
      → row.base_commit ≡ h.row.base_commit
      → row.creator ≡ h.row.creator
      → row.created_at ≡ h.row.created_at
      → HasIdentity w (record db { workspaces = rows })
  unfolding find_workspace
  kept rows row found r e b c t = record {
    row = row;
    found = found;
    repository = cc (r, h.repository);
    executor = cc (e, h.executor);
    base_commit = cc (b, h.base_commit);
    creator = cc (c, h.creator);
    created_at = cc (t, h.created_at);
  }

  create-HasIdentity :
      (at : Timestamp) (c : CreateWorkspace) {db' : Db} {r : Option WorkspaceRecord}
      → create_workspace_tx at c db ≡ ok (db', r)
      → HasIdentity w db'
  unfolding create_workspace_tx find_workspace
  create-HasIdentity at c q = elim (Option-cases (find_workspace db c.id)) [
    | inr (x, e) ↦ subst (HasIdentity w) (ground (arith, q, e)) h
    | inl n ↦ subst (HasIdentity w) (ground (arith, q, n)) (
        kept (db.workspaces ++ new_workspace at c ∷ []) h.row
          (rw (find?-append (is_workspace w.workspace_id) db.workspaces (new_workspace at c ∷ []))
            (rw h.found refl))
          refl refl refl refl refl)
  ]

  record-HasIdentity :
      (x : WorkspaceRecord) {db' : Db} {u : Unit {0}}
      → record_tx x db ≡ ok (db', u)
      → HasIdentity w db'
  unfolding record_tx find_workspace to_i64
  record-HasIdentity x q =
      let rows = upsert (is_workspace x.workspace_id) (observe x) (observed x) db.workspaces in
      subst (HasIdentity w) (ground (arith, q))
        (elim (find?-upsert_there (is_workspace x.workspace_id) (is_workspace w.workspace_id)
          (observe x) (observed x) db.workspaces (λ r. refl) h.found) [
            | inl e ↦ kept rows h.row e refl refl refl refl refl
            | inr (t, e) ↦ kept rows (observe x h.row) e refl refl refl refl refl
          ])

  transition-HasIdentity :
      (id : WorkspaceId) (creator : String) (n : ℕ) (tree : String) (commit : Option String)
      (state : WorkspaceState) {db' : Db} {u : Unit {0}}
      → transition_workspace_tx id creator n tree commit state db ≡ ok (db', u)
      → HasIdentity w db'
  unfolding transition_workspace_tx find_workspace to_i64 next_revision
  transition-HasIdentity id creator n tree commit state q =
      let f = edit (n + 1) tree commit state in
      let p = is_owned_at id creator n in
      let e = find?-update_where p (is_workspace w.workspace_id) f db.workspaces (λ r. refl) in
      subst (HasIdentity w) (ground (arith, q)) (elim (Bool-cases (p h.row)) [
        | inl t ↦
            kept (update_where p f db.workspaces) (f h.row) (rw e (rw h.found (rw t))) refl refl
              refl refl refl
        | inr t ↦
            kept (update_where p f db.workspaces) h.row (rw e (rw h.found (rw t))) refl refl refl
              refl refl
      ])

apply_workspace-HasIdentity :
    (w : WorkspaceRecord) (op : WorkspaceOperation) (db : Db)
    → HasIdentity w db
    → HasIdentity w (apply_workspace op db)
unfolding create_workspace record_workspace transition_workspace
apply_workspace-HasIdentity w (WorkspaceOperation.create at c) db h =
    transact_inv (HasIdentity w) db _ _ h λ db' r q. create-HasIdentity w db h at c q
apply_workspace-HasIdentity w (WorkspaceOperation.observation x) db h =
    transact_inv (HasIdentity w) db _ _ h λ db' u q. record-HasIdentity w db h x q
apply_workspace-HasIdentity w (WorkspaceOperation.transition id creator n tree commit state) db h =
    transact_inv (HasIdentity w) db _ _ h
      λ db' u q. transition-HasIdentity w db h id creator n tree commit state q

-- Once a workspace is in the tables, then after any sequence of creations, observations by an
-- executor and transitions, with whatever arguments, it is there with the same repository,
-- executor, base commit, creator and time of creation.
pub run_workspaces-HasIdentity :
    (w : WorkspaceRecord) (ops : List WorkspaceOperation) (db : Db)
    → HasIdentity w db
    → HasIdentity w (run_workspaces ops db)
run_workspaces-HasIdentity w [] db h = h
run_workspaces-HasIdentity w (op ∷ ops) db h =
    run_workspaces-HasIdentity w ops (apply_workspace op db) (apply_workspace-HasIdentity w op db h)
