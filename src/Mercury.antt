-- ===== src/Mercury.antt =====
-- The Mercury protocol: snapshots and their signatures, src/mercury.rs.
pub mod Defs
pub mod Execution
pub mod Votes
pub mod Creation
pub mod Absence
pub mod Repetition
mod Examples
