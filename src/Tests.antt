-- ===== src/Tests.antt =====
-- Examples: the code at concrete inputs, and each theorem at an input that meets its hypotheses.
mod Jobs
mod Locks
mod Deliveries
mod Events
mod Remediation
mod Workspaces
mod States
mod Links
mod Listing
mod Visible
mod Runner
mod Confinement
mod Hub
mod Stages
