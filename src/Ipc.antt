-- ===== src/Ipc.antt =====
-- The programs whose processes talk through the kernel.
pub mod SysvMq
pub mod PosixMq
pub mod Shm
pub mod Tcp
pub mod Fifo
