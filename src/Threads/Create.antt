-- ===== src/Threads/Create.antt =====
-- pthread_create_example.c: a thread counts, and main waits for it.
pub mod Laws
mod Tests
use linux_system_programming.Prelude.{
  ℕ, zero, suc, ◌+◌, ◌-◌, ℤ, pos, minus_one, is_zero, not, List, [], ◌∷◌, if◌then◌else◌,
}
use linux_system_programming.Sys.{
  num, Prog, ret, halt, print, call, ◌>>=◌, ◌>>◌, sys, printf, exit, when, out,
}

pub data Call : Type 0 where
  pthread_create : Call  -- with start_func and &num
  pthread_join : Call

-- The value of the call, and what the thread handed to pthread_exit behind pthread_join.
pub record Reply : Type 0 where
  pub ret : ℤ
  pub status : ℤ

-- The loop of `start_func`, `n` rounds from `i`.
unfoldable pub count : ℕ → ℕ → Prog Call Reply (Unit {0})
count zero i = ret tt
count (suc n) i = do printf "%d\n" (num (pos i) ∷ []); count n (i + 1)

-- It ends with pthread_exit ((void *) 0).
unfoldable pub start_func : ℕ → Prog Call Reply (Unit {0})
unfolding count
start_func n = count n 0

-- The text of strerror (ret) is left as the number.
unfoldable pub main : Prog Call Reply (Unit {0})
main = do
  r ← sys pthread_create
  when (not (is_zero r.ret)) do printf "pthread_create error: %s\n" (num r.ret ∷ []); exit minus_one
  j ← sys pthread_join
  printf "Thread returned: %d\n" (num j.status ∷ [])
  exit (pos 0)
