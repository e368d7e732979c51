-- ===== src/Zfs.antt =====
-- internal/zfs/zfs.go: listings and placeholder bookmarks.
pub mod Json
pub mod Table
pub mod Bookmarks
pub mod Obsolete
pub mod Placeholders
pub mod Idempotent
pub mod Rows
pub mod Shown
pub mod Listed
pub mod Expand
pub mod Expanded
pub mod Tabular
pub mod Batches
pub mod Batched
