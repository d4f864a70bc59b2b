-- ===== src/Store/Workspaces.antt =====
-- Workspaces of crates/maxops-store/src/lib.rs: `create_workspace`, `record_workspace`,
-- `get_workspace`, `get_owned_workspace` and `transition_workspace`.
pub mod Identity
use mathlib.Core.Option
use maxops.Prelude.{
  ℕ, String, Bool, true, false, not, ◌&&◌, Option, none, some, [], ◌∷◌, ◌++◌, ok, ◌>>=◌, ◌>>◌,
  ensure, ok_or, leb, ◌==◌, str_eq, if◌then◌else◌, to_ascii_lowercase, eq_ignore_ascii_case, find?,
  update_where, upsert, count_where, is_some,
}
use maxops.Proto.Ids.{WorkspaceId}
use maxops.Proto.Jobs.{Timestamp}
use maxops.Proto.Names.{bounded, valid_host, valid_repository_id, valid_git_oid}
use maxops.Proto.WorkspaceState.{WorkspaceState}
use maxops.Proto.Workspaces.{WorkspaceRecord}
use maxops.Store.Db.{Db}
use maxops.Store.Errors.{
  Outcome, invalid_repository_id, invalid_workspace_executor, invalid_base_commit,
  invalid_tree_hash, invalid_commit_hash, invalid_workspace_creator, workspace_conflict,
  workspace_identity_changed, workspace_not_found, workspace_revision_changed,
  workspace_revision_overflow, to_i64, next_revision, transact,
}

-- `WHERE id = ?`
abbrev pub is_workspace : WorkspaceId → WorkspaceRecord → Bool
is_workspace id r = str_eq r.workspace_id id

unfoldable pub find_workspace : Db → WorkspaceId → Option WorkspaceRecord
find_workspace db id = find? (is_workspace id) db.workspaces

unfoldable pub get_workspace : Db → WorkspaceId → Outcome WorkspaceRecord
get_workspace db id = ok_or (find_workspace db id) workspace_not_found

unfoldable pub get_owned_workspace : Db → String → String → WorkspaceId → Outcome WorkspaceRecord
get_owned_workspace db creator repository id = do
  workspace ← get_workspace db id
  ensure (str_eq workspace.creator creator && str_eq workspace.repository repository)
      workspace_not_found
  ok workspace

-- The arguments of `create_workspace`.
pub record CreateWorkspace : Type 0 where
  pub id : WorkspaceId
  pub repository : String
  pub executor : String
  pub base_commit : String
  pub tree_hash : String
  pub creator : String

abbrev pub new_workspace : Timestamp → CreateWorkspace → WorkspaceRecord
new_workspace at c = record {
  workspace_id = c.id;
  repository = c.repository;
  executor = c.executor;
  base_commit = to_ascii_lowercase c.base_commit;
  revision = 1;
  tree_hash = to_ascii_lowercase c.tree_hash;
  commit_hash = none;
  state = WorkspaceState.clean;
  creator = c.creator;
  created_at = at;
  retain_until = none;
}

abbrev pub has_metadata : CreateWorkspace → WorkspaceRecord → Bool
has_metadata c existing =
    str_eq existing.repository c.repository
    && str_eq existing.executor c.executor
    && eq_ignore_ascii_case existing.base_commit c.base_commit
    && eq_ignore_ascii_case existing.tree_hash c.tree_hash
    && str_eq existing.creator c.creator

-- The reply is the row that was there, or none for a new one.
unfoldable pub create_workspace_tx :
    Timestamp → CreateWorkspace → Db → Outcome (Db × Option WorkspaceRecord)
create_workspace_tx at c db = do
  ensure (valid_repository_id c.repository) invalid_repository_id
  ensure (valid_host c.executor) invalid_workspace_executor
  ensure (valid_git_oid c.base_commit) invalid_base_commit
  ensure (valid_git_oid c.tree_hash) invalid_tree_hash
  ensure (bounded 128 c.creator) invalid_workspace_creator
  elim (find_workspace db c.id) [
    | some existing ↦ do ensure (has_metadata c existing) workspace_conflict; ok (db, some existing)
    | none ↦ ok (record db { workspaces = db.workspaces ++ new_workspace at c ∷ [] }, none)
  ]

abbrev created_reply : WorkspaceId → Db → Option WorkspaceRecord → Outcome WorkspaceRecord
created_reply id db none = get_workspace db id
created_reply id db (some existing) = ok existing

unfoldable pub create_workspace : Timestamp → CreateWorkspace → Db → Db × Outcome WorkspaceRecord
create_workspace at c db = transact db (create_workspace_tx at c db) (created_reply c.id)

-- The `WHERE` of `DO UPDATE`.
abbrev pub same_identity : WorkspaceRecord → WorkspaceRecord → Bool
same_identity w r =
    str_eq r.repository w.repository
    && str_eq r.executor w.executor
    && str_eq r.base_commit w.base_commit
    && str_eq r.creator w.creator

abbrev pub observe : WorkspaceRecord → WorkspaceRecord → WorkspaceRecord
observe w r = record r {
  revision = w.revision;
  tree_hash = to_ascii_lowercase w.tree_hash;
  commit_hash = Option.map to_ascii_lowercase w.commit_hash;
  state = w.state;
  retain_until = w.retain_until;
}

abbrev pub observed : WorkspaceRecord → WorkspaceRecord
observed w = record w {
  tree_hash = to_ascii_lowercase w.tree_hash;
  commit_hash = Option.map to_ascii_lowercase w.commit_hash;
}

-- A row with another identity is left alone, which is an error.
unfoldable pub record_tx : WorkspaceRecord → Db → Outcome (Db × Unit {0})
record_tx w db = do
  n ← to_i64 w.revision
  ensure (elim (find_workspace db w.workspace_id) [ none ↦ true | some r ↦ same_identity w r ])
      workspace_identity_changed
  ok (
    record db {
      workspaces = upsert (is_workspace w.workspace_id) (observe w) (observed w) db.workspaces;
    },
    tt {0},
  )

unfoldable pub record_workspace : WorkspaceRecord → Db → Db × Outcome WorkspaceRecord
record_workspace w db = transact db (record_tx w db) (λ db' u. get_workspace db' w.workspace_id)

-- `WHERE id = ? AND creator = ? AND revision = ?`
abbrev pub is_owned_at : WorkspaceId → String → ℕ → WorkspaceRecord → Bool
is_owned_at id creator revision r =
    is_workspace id r && str_eq r.creator creator && r.revision == revision

abbrev pub edit : ℕ → String → Option String → WorkspaceState → WorkspaceRecord → WorkspaceRecord
edit revision tree_hash commit_hash state r = record r {
  revision = revision;
  tree_hash = to_ascii_lowercase tree_hash;
  commit_hash = Option.map to_ascii_lowercase commit_hash;
  state = state;
}

abbrev is_oid_if_some : Option String → Bool
is_oid_if_some none = true
is_oid_if_some (some hash) = valid_git_oid hash

unfoldable pub transition_workspace_tx :
    WorkspaceId
    → String
    → ℕ
    → String
    → Option String
    → WorkspaceState
    → Db
    → Outcome (Db × Unit {0})
transition_workspace_tx id creator expected tree_hash commit_hash state db = do
  ensure (valid_git_oid tree_hash) invalid_tree_hash
  ensure (is_oid_if_some commit_hash) invalid_commit_hash
  next ← next_revision workspace_revision_overflow expected
  n ← to_i64 next
  ensure (count_where (is_owned_at id creator expected) db.workspaces == 1)
      workspace_revision_changed
  ok (
    record db {
      workspaces =
          update_where (is_owned_at id creator expected) (edit n tree_hash commit_hash state)
            db.workspaces;
    },
    tt {0},
  )

unfoldable pub transition_workspace :
    WorkspaceId
    → String
    → ℕ
    → String
    → Option String
    → WorkspaceState
    → Db
    → Db × Outcome WorkspaceRecord
transition_workspace id creator expected tree_hash commit_hash state db =
    transact db (transition_workspace_tx id creator expected tree_hash commit_hash state db)
      (λ db' u. get_workspace db' id)
