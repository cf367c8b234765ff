-- ===== src/Threads/Bank.antt =====
-- pthread_example.c: two threads withdraw from one balance under a mutex.
pub mod Program
pub mod Places
pub mod Order
pub mod Stages
pub mod Refinement
pub mod Progress
pub mod Laws
mod Tests
use linux_system_programming.Prelude.{ℕ, ℤ, pos, ◌-ℤ◌, Bool, true, false, ◌≡◌}

-- The globals: whether the mutex is locked, and `total_money`.
pub record Memory : Type 0 where
  pub mutex : Bool
  pub total_money : ℤ

-- Where a thread stands in `withdrawal`.
pub data Pc : Type 0 where
  start : Pc  -- before pthread_mutex_lock
  locked : Pc  -- before `total_money` is read
  got : (total : ℤ) → Pc  -- before the difference is stored
  stored : Pc  -- the sleep, up to pthread_mutex_unlock
  finished : Pc

-- One step of a thread that withdraws `money`; a locked mutex is waited for.
pub data Move (money : ℤ) (m : Memory) : Pc → Memory → Pc → Type 0 where
  lock : m.mutex ≡ false → Move money m start (record m { mutex = true }) locked
  read : Move money m locked m (got m.total_money)
  subtract :
      {total : ℤ} → Move money m (got total) (record m { total_money = total -ℤ money }) stored
  unlock : Move money m stored (record m { mutex = false }) finished

pub record System : Type 0 where
  pub mem : Memory
  pub thread1 : Pc
  pub thread2 : Pc

pub data Step (money1 money2 : ℤ) (s : System) : System → Type 0 where
  step1 :
      {m : Memory} {p : Pc}
      → Move money1 s.mem s.thread1 m p
      → Step money1 money2 s (record s { mem = m; thread1 = p })
  step2 :
      {m : Memory} {p : Pc}
      → Move money2 s.mem s.thread2 m p
      → Step money1 money2 s (record s { mem = m; thread2 = p })

-- `main` up to the creation of the threads; the program has 1000, 100 and 200.
abbrev pub init : ℤ → System
init total = record {
  mem = record { mutex = false; total_money = total };
  thread1 = start;
  thread2 = start;
}

pub data Reach (total money1 money2 : ℤ) : System → Type 0 where
  begin : Reach total money1 money2 (init total)
  later :
      {s t : System}
      → Reach total money1 money2 s
      → Step money1 money2 s t
      → Reach total money1 money2 t
