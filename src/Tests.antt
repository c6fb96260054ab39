-- ===== src/Tests.antt =====
-- The theorems at concrete inputs.
mod Kernel
mod Nodes
mod Graphs
mod Crdt
mod Ebit
mod Recovery
mod Feedback
