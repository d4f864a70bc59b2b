-- ===== src/Proto/Changes.antt =====
-- The records of changes (crates/maxops-proto/src/changes.rs).
use maxops.Prelude.{ℕ, String, Option, none}
use maxops.Proto.Ids.{JobId, ChangeId, WorkspaceId}
use maxops.Proto.Jobs.{Timestamp}
use maxops.Proto.ChangeState.{ChangeState}

pub record SourceBaseline : Type 0 where
  pub repository_id : String
  pub reference : String
  pub commit : Option String
  pub observed_at : Timestamp
  pub evidence : String

pub record RuntimeBaseline : Type 0 where
  pub host : String
  pub profile : String
  pub running_closure : Option String
  pub persistent_profile : Option String
  pub generation : Option ℕ
  pub boot_id : Option String
  pub source_commit : Option String
  pub observed_at : Timestamp
  pub evidence : String

pub data DeploymentKind : Type 0 where
  system home : DeploymentKind

pub record ChangePlan : Type 0 where
  pub change_id : ChangeId
  pub repository : String
  pub workspace_id : WorkspaceId
  pub workspace_revision : ℕ
  pub tree_hash : String
  pub source_commit : String
  pub source_reference : String
  pub source_remote_head : String
  pub target_host : String
  pub deployment_profile : String
  pub kind : DeploymentKind
  pub flake_attribute : String
  pub drv_path : Option String
  pub lock_digest : Option String
  pub source_baseline : SourceBaseline
  pub runtime_baseline : RuntimeBaseline
  pub policy_version : String
  pub created_at : Timestamp
  pub expires_at : Timestamp

pub record DeploymentArtifact : Type 0 where
  pub builder_host : String
  pub source_commit : String
  pub tree_hash : String
  pub lock_digest : String
  pub drv_path : String
  pub out_path : String
  pub built_at : Timestamp

pub record ChangeJobs : Type 0 where
  pub prepare : Option JobId
  pub build : Option JobId
  pub activate : Option JobId
  pub verify : Option JobId
  pub rollback : Option JobId

-- `ChangeJobs::default()`
abbrev pub no_jobs : ChangeJobs
no_jobs = record { prepare = none; build = none; activate = none; verify = none; rollback = none }

pub record ChangeRecord : Type 0 where
  pub plan : ChangePlan
  pub creator : String
  pub revision : ℕ
  pub state : ChangeState
  pub artifact : Option DeploymentArtifact
  pub jobs : ChangeJobs
  pub recovery_state : Option String
  pub updated_at : Timestamp

pub record ChangeHistoryParams : Type 0 where
  pub cursor : Option ChangeId
  pub host : Option String
  pub limit : ℕ

pub data DeploymentAction : Type 0 where
  prepare build activate verify rollback : DeploymentAction
