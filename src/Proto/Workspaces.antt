-- ===== src/Proto/Workspaces.antt =====
-- The record of a workspace (crates/maxops-proto/src/workspaces.rs).
use maxops.Prelude.{ℕ, String, Option}
use maxops.Proto.Ids.{WorkspaceId}
use maxops.Proto.Jobs.{Timestamp}
use maxops.Proto.WorkspaceState.{WorkspaceState}

pub record WorkspaceRecord : Type 0 where
  pub workspace_id : WorkspaceId
  pub repository : String
  pub executor : String
  pub base_commit : String
  pub revision : ℕ
  pub tree_hash : String
  pub commit_hash : Option String
  pub state : WorkspaceState
  pub creator : String
  pub created_at : Timestamp
  pub retain_until : Option Timestamp
