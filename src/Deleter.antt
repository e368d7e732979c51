-- ===== src/Deleter.antt =====
-- internal/deleter/deleter.go: the retention of snapshots.
pub mod Policy
pub mod Mark
pub mod Keep
pub mod Walk
pub mod Rules
pub mod Sequence
pub mod Times
pub mod Retention
pub mod Batches
pub mod Snaps
pub mod Listing
pub mod Timeline
pub mod Job
pub mod Parallel
