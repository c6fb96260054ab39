-- ===== src/Resilience.antt =====
-- core/reference/pacore/resilience.py: the scenario catalog, recovery classes, supervision,
-- checkpoints and recovery transactions.
mod Error
pub mod Quantum
pub mod Scenario
pub mod Planner
pub mod Supervision
pub mod Campaign
pub mod Checkpoint
pub mod Transaction
pub use Error.*
