-- ===== src/Snapshot.antt =====
-- Snapshots: src/snapshot.rs.
pub mod Certificate
pub mod Weight
pub mod Quorum
pub mod Safety
pub mod Manager
pub mod Lifecycle
pub mod History
pub mod Finality
mod Examples
