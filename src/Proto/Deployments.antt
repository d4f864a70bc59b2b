-- ===== src/Proto/Deployments.antt =====
-- The specification of a deployment stage and its report (crates/maxops-proto/src/changes.rs).
use maxops.Prelude.{ℕ, Bool, String, Option, List, ◌==◌}
use maxops.Proto.Jobs.{Timestamp}
use maxops.Proto.Changes.{ChangePlan, DeploymentArtifact, DeploymentAction}

pub record DeploymentJobSpec : Type 0 where
  pub action : DeploymentAction
  pub plan : ChangePlan
  pub artifact : Option DeploymentArtifact

pub record DeploymentRunnerSpec : Type 0 where
  pub job : DeploymentJobSpec
  pub nix : String
  pub nix_env : String
  pub profile_path : String
  pub running_link : String
  pub activation_program : String
  pub activation_arguments : List String
  pub artifact_source : Option String
  pub verify_commands : List (List String)
  pub verify_attempts : ℕ
  pub verify_interval_seconds : ℕ
  pub automatic_rollback : Bool

pub data DeploymentReportStatus : Type 0 where
  prepared built activated verified rolled_back stale superseded recovery_failed outcome_unknown
        failed :
      DeploymentReportStatus

pub record DeploymentReport : Type 0 where
  pub action : DeploymentAction
  pub status : DeploymentReportStatus
  pub drv_path : Option String
  pub out_path : Option String
  pub lock_digest : Option String
  pub observed_running : Option String
  pub observed_profile : Option String
  pub detail : String
  pub completed_at : Timestamp

abbrev action_index : DeploymentAction → ℕ
action_index DeploymentAction.prepare = 0
action_index DeploymentAction.build = 1
action_index DeploymentAction.activate = 2
action_index DeploymentAction.verify = 3
action_index DeploymentAction.rollback = 4

-- The derived `PartialEq` of `DeploymentAction`.
abbrev pub action_eq : DeploymentAction → DeploymentAction → Bool
action_eq a b = action_index a == action_index b
