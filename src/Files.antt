-- ===== src/Files.antt =====
-- The programs that read, change and share files.
pub mod Mmap
pub mod Stat
pub mod Record
pub mod Position
pub mod RecordLock
pub mod Filter
pub mod Directory
pub mod Access
pub mod StreamLock
