-- ===== src/Hub.antt =====
-- The hub (crates/maxops-hub/src).
pub mod Errors
pub mod Projection
pub mod Following
pub mod World
pub mod Refresh
pub mod Reports
pub mod Access
pub mod Dispatch
pub mod Sending
pub mod Finish
pub mod Finishing
pub mod Ending
pub mod Workflow
pub mod Stage
pub mod Stopping
pub mod Confirming
