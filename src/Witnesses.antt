-- ===== src/Witnesses.antt =====
-- The theorems applied to concrete data.
pub mod Data
pub mod Rules
pub mod Snapshots
pub mod Commands
pub mod Differences
pub mod Engine
pub mod Storage
pub mod Fuzzing
pub mod Tokens
pub mod Contracts
pub mod Branches
pub mod Imports
