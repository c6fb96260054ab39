-- ===== src/Crdt.antt =====
-- core/reference/pacore/crdt.py: replicated data types, anti-entropy and the consistency contract.
mod Error
pub mod Quantum
pub mod Laws
pub mod Counts
pub mod GCounter
pub mod PnCounter
pub mod GSet
pub mod OrSet
pub mod Version
pub mod Register
pub mod AntiEntropy
pub mod Contract
pub use Error.*
unfoldable pub use Quantum.{is_quantum_value, reject_quantum}
