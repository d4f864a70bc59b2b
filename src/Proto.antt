-- ===== src/Proto.antt =====
-- The protocol's types (crates/maxops-proto/src).
pub mod JobState
pub mod ChangeState
pub mod WorkspaceState
pub mod JobEventKind
pub mod EventKind
pub mod RemediationState
pub mod DeliveryStage
pub mod Json
pub mod Ids
pub mod Names
pub mod Jobs
pub mod Changes
pub mod Deployments
pub mod Events
pub mod Observations
pub mod Workspaces
