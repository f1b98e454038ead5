-- ===== src/Storage.antt =====
-- src/storage: the content-addressed store of snapshots, and the timeline built on it.
pub mod Merkle
pub mod Timeline
pub mod Pointer
