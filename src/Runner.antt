-- ===== src/Runner.antt =====
-- The program that executes one stage of a deployment on its host
-- (crates/maxops-executor/src/bin/maxops-deploy-runner.rs).
pub mod Paths
pub mod Machine
pub mod Commands
pub mod Observe
pub mod Stages
pub mod Validation
pub mod Actions
pub mod Endings
pub mod Verification
pub mod Correspondence
pub mod Evidence
pub mod Truth
pub mod Guarantees
pub mod Ownership
pub mod Confinement
pub mod StageCommands
