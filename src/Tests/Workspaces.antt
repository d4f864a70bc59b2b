-- ===== src/Tests/Workspaces.antt =====
-- Examples for the store's workspaces.
use maxops.Prelude.{String, refl, none, List, [], ◌∷◌, str_eq, find?}
use maxops.Proto.WorkspaceState
use maxops.Proto.Workspaces.{WorkspaceRecord}
use maxops.Store.Db.{Db}
use maxops.Store.History.{no_rows}
use maxops.Store.Workspaces.{find_workspace}
use maxops.Store.Workspaces.Identity.{
  WorkspaceOperation, run_workspaces, HasIdentity, run_workspaces-HasIdentity,
}

abbrev oid : String
oid = "0123456789abcdef0123456789abcdef01234567"

abbrev a_workspace : WorkspaceRecord
a_workspace = record {
  workspace_id = "w1";
  repository = "fleet";
  executor = "host-a";
  base_commit = oid;
  revision = 1;
  tree_hash = oid;
  commit_hash = none;
  state = WorkspaceState.clean;
  creator = "automation-a";
  created_at = 1;
  retain_until = none;
}

abbrev one_workspace : Db
one_workspace = record no_rows { workspaces = a_workspace ∷ [] }

abbrev calls : List WorkspaceOperation
calls =
    WorkspaceOperation.transition "w1" "automation-a" 1 oid none WorkspaceState.dirty
    ∷ WorkspaceOperation.observation (record a_workspace { revision = 7 })
    ∷ WorkspaceOperation.create 9 (record {
      id = "w1";
      repository = "fleet";
      executor = "host-b";
      base_commit = oid;
      tree_hash = oid;
      creator = "automation-a";
    })
    ∷ []

itself : HasIdentity a_workspace one_workspace
unfolding find_workspace find? str_eq
itself = record {
  row = a_workspace;
  found = refl;
  repository = refl;
  executor = refl;
  base_commit = refl;
  creator = refl;
  created_at = refl;
}

run_workspaces-HasIdentity_example : HasIdentity a_workspace (run_workspaces calls one_workspace)
run_workspaces-HasIdentity_example =
    run_workspaces-HasIdentity a_workspace calls one_workspace itself
