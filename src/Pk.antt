-- ===== src/Pk.antt =====
-- pk: the core of the production kernel (pk/pk_core) and the semantics of its components
-- (pk/pk_components).
mod Error
pub mod Evidence
pub mod Contract
pub mod Checklist
pub mod Workflow
pub mod Gate
pub mod Policy
pub mod Rollout
pub mod FairShare
pub mod Autonomy
pub mod Attestation
pub mod Supervisor
pub mod Accelerator
pub mod Replication
pub mod Intent
pub mod Placement
pub use Error.*
