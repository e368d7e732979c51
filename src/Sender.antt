-- ===== src/Sender.antt =====
-- internal/sender/sender.go: what is sent to which destination.
pub mod Source
pub mod Select
pub mod Chosen
pub mod Suffix
pub mod Defaults
pub mod Ready
pub mod Plan
pub mod Resume
pub mod Transfer
pub mod Marks
pub mod Round
pub mod Streams
pub mod Job
pub mod Retry
pub mod Resumed
pub mod Known
pub mod Isolated
pub mod Parallel
