-- ===== src/Process.antt =====
-- The programs about a process and its child.
pub mod Status
pub mod Pipe
pub mod Signal
pub mod Clock
pub mod Command
pub mod Daemon
pub mod Kill
