-- ===== src/Protocols.antt =====
-- core/reference/pacore/protocols.py: the entanglement ledger and the classical feedback fabric.
mod Error
pub mod Ebit
pub mod Feedback
pub use Error.*
