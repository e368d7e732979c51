-- ===== src/Receiver.antt =====
-- internal/receiver/receiver.go: the backup host.
pub mod Suggestion
pub mod Full
pub mod Newest
pub mod Partial
pub mod Arguments
pub mod Marks
pub mod Parents
pub mod Serve
pub mod Ancestors
pub mod Marked
pub mod Refused
