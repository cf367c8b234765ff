-- ===== src/Ipc/PosixMq/Tests.antt =====
-- The POSIX queue programs: the theorems at concrete queues.
use linux_system_programming.Prelude.{ℕ, false, none, replicate, List, [], ◌∷◌}
use linux_system_programming.Ipc.PosixMq.Queue.{Mq}

abbrev name : List ℕ
name = b'q' ∷ []

abbrev no_queue : Mq
no_queue = record {
  queue = [];
  name = none;
  notify = false;
  room = 0;
  size = 0;
  garbage = λ n. replicate n b'g';
  block = 0;
}
