-- ===== src/Staking.antt =====
-- Stake of validators: src/staking.rs.
pub mod Stake
pub mod Manager
pub mod Balance
pub mod Books
pub mod Calls
pub mod Ledger
mod Examples
