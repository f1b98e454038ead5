-- ===== src/Engine.antt =====
-- src/engine: the comparison of snapshots with responses, and what is built on it.
pub mod Differ
pub mod BlastRadius
pub mod JitRule
pub mod Masker
