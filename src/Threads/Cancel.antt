-- ===== src/Threads/Cancel.antt =====
-- pthread_cancel_example.c: main ends a thread that never ends by itself.
pub mod Timed
pub mod Laws
mod Tests
use linux_system_programming.Prelude.{
  ℕ, zero, suc, ℤ, pos, minus_one, is_zero, not, List, [], ◌∷◌, if◌then◌else◌,
}
use linux_system_programming.Sys.{
  Reply, num, Prog, ret, halt, print, call, ◌>>=◌, ◌>>◌, sys, sys_, printf, perror, exit, when, out,
  err, out_of_fuel,
}

-- A sleep is two calls: the thread goes to sleep, and later wakes.
pub data Call : Type 0 where
  pthread_create : Call  -- with start_func
  sleep : (seconds : ℕ) → Call
  wake : Call
  pthread_cancel : Call

-- The `while (1)` of `start_func`, for a number of rounds.
unfoldable pub keep_on : ℕ → Prog Call Reply (Unit {0})
keep_on zero = halt out_of_fuel
keep_on (suc fuel) = do
  sys_ (sleep 1)
  sys_ wake
  printf "start_func() continue!\n" []
  keep_on fuel

unfoldable pub start_func : ℕ → Prog Call Reply (Unit {0})
start_func fuel = do printf "start_func() just wait... \n" []; keep_on fuel

-- The text of strerror (ret) is left as the number.
unfoldable pub main : Prog Call Reply (Unit {0})
main = do
  r ← sys pthread_create
  when (not (is_zero r.ret)) do printf "pthread_create erorr: %s\n" (num r.ret ∷ []); exit minus_one
  sys_ (sleep 5)
  sys_ wake
  c ← sys pthread_cancel
  when (not (is_zero c.ret)) do perror "pthread_cancel error: "; exit minus_one
  printf "Thread canceled\n" []
  exit (pos 0)
