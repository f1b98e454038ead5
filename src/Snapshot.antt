-- ===== src/Snapshot.antt =====
-- src/snapshot: the snapshots, and the approvals beside them.
pub mod Approvals
pub mod Files
pub mod Store
