-- ===== src/Store.antt =====
-- The durable store (crates/maxops-store/src/lib.rs).
pub mod Canonical
pub mod Db
pub mod Errors
pub mod Jobs
pub mod Workspaces
pub mod Changes
pub mod Submit
pub mod History
pub mod Resources
pub mod Clock
pub mod Deliveries
pub mod Listing
pub mod Events
pub mod EventOrder
pub mod Observations
pub mod Remediation
