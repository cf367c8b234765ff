-- ===== src/Ipc/Fifo/Laws.antt =====
-- The FIFO programs: a round at the end of the input.
