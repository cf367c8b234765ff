-- ===== src/Threads.antt =====
-- The programs whose threads share memory: each is a step relation over the interleavings.
pub mod Team
pub mod SemPrint
pub mod Bank
pub mod SemPosix
pub mod Create
pub mod Cancel
