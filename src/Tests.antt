-- ===== src/Tests.antt =====
-- The theorems at concrete data, and runs of the definitions.
mod Names
mod Deleter
mod Sender
mod Zfs
mod Receiver
mod Group
mod Workers
mod Exchange
mod Parallel
mod Processes
mod Tables
mod Snapshot
mod Transfer
mod Marks
mod Run
mod Monitor
