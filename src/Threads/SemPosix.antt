-- ===== src/Threads/SemPosix.antt =====
-- POSIX/sem_posix_example.c: three threads, one resource; two wait for it, the third one tries.
pub mod Program
pub mod Places
pub mod Steps
pub mod Order
pub mod Stages
pub mod Kept
pub mod Refinement
pub mod Progress
pub mod Laws
mod Tests
use linux_system_programming.Prelude.{ℕ, ◌+◌, ◌-◌, ◌<◌, Bool, true, false, ◌≡◌}

-- The semaphore's value, and whether an error has ended the process.
pub record Memory : Type 0 where
  pub sem : ℕ
  pub over : Bool

-- Where a thread stands in `thread_t1` or `thread_t2`.
pub data Pc : Type 0 where
  started : Pc
  waiting : Pc  -- in sem_wait
  trying : Pc  -- at `retry:`, before sem_trywait
  backing_off : Pc  -- EAGAIN: the message and `sleep (1)`, before `goto retry`
  critical : Pc  -- between the wait and sem_post
  finished : Pc

-- `thread_t1`. No handler is installed, so sem_wait returns only with the resource.
pub data Move1 (m : Memory) : Pc → Memory → Pc → Type 0 where
  announce : Move1 m started m waiting
  wait : 0 < m.sem → Move1 m waiting (record m { sem = m.sem - 1 }) critical
  post : Move1 m critical (record m { sem = m.sem + 1 }) finished

-- `thread_t2`. Any error but EAGAIN ends the process.
pub data Move2 (m : Memory) : Pc → Memory → Pc → Type 0 where
  enter : Move2 m started m trying
  acquire : 0 < m.sem → Move2 m trying (record m { sem = m.sem - 1 }) critical
  again : m.sem ≡ 0 → Move2 m trying m backing_off
  retry : Move2 m backing_off m trying
  fail : Move2 m trying (record m { over = true }) trying
  post2 : Move2 m critical (record m { sem = m.sem + 1 }) finished

pub record System : Type 0 where
  pub mem : Memory
  pub t1 : Pc
  pub t2 : Pc
  pub t3 : Pc

pub data Step (s : System) : System → Type 0 where
  step1 :
      {m : Memory} {p : Pc}
      → s.mem.over ≡ false
      → Move1 s.mem s.t1 m p
      → Step s (record s { mem = m; t1 = p })
  step2 :
      {m : Memory} {p : Pc}
      → s.mem.over ≡ false
      → Move1 s.mem s.t2 m p
      → Step s (record s { mem = m; t2 = p })
  step3 :
      {m : Memory} {p : Pc}
      → s.mem.over ≡ false
      → Move2 s.mem s.t3 m p
      → Step s (record s { mem = m; t3 = p })

-- `sem_init (&sem, 0, 1)` and the three threads.
abbrev pub init : System
init = record { mem = record { sem = 1; over = false }; t1 = started; t2 = started; t3 = started }

pub data Reach : System → Type 0 where
  begin : Reach init
  later : {s t : System} → Reach s → Step s t → Reach t
