-- ===== src/Commands.antt =====
-- cmd/zfsbackup/main.go, and the `Main` functions of the modules: the command, its flags and the
-- configuration file.
pub mod Version
pub mod Start
pub mod Exits
pub mod Receive
