-- ===== src/Snapshot.antt =====
-- internal/snapshot/snapshot.go: periodic snapshots.
pub mod Skip
pub mod Take
pub mod Pools
pub mod Young
