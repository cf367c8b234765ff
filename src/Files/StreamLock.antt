-- ===== src/Files/StreamLock.antt =====
-- flock_example.c: a thread prints a file and adds a line, under the stream's lock.
pub mod Laws
mod Tests
use linux_system_programming.Prelude.{
  ℕ, zero, suc, pos, minus_one, is_zero, is_minus_one, List, [], ◌∷◌, if◌then◌else◌,
}
use linux_system_programming.Sys.{
  Reply, str, Prog, ret, halt, ◌>>=◌, ◌>>◌, sys, sys_, printf, perror, exit, when, out_of_fuel,
}
use linux_system_programming.Libc.{codes}

-- The stream is the one that both threads get.
pub data Call : Type 0 where
  fopen : (path : List ℕ) → Call  -- fopen (path, "r+")
  flockfile : Call
  fgets : (size : ℕ) → Call
  fputs : (text : List ℕ) → Call
  sleep : (seconds : ℕ) → Call
  funlockfile : Call
  pthread_create : (thread : ℕ) → Call  -- with mod_file_thread and the stream
  pthread_join : (thread : ℕ) → Call

-- The `while`, within a number of rounds.
unfoldable pub show_file : ℕ → Prog Call Reply (Unit {0})
show_file zero = halt out_of_fuel
show_file (suc fuel) = do
  r ← sys (fgets 1024)
  if is_zero r.ret then ret tt else (do printf "%s" (str r.text ∷ []); show_file fuel)

abbrev pub hello : List ℕ
hello = codes "hello world!\n"

-- The thread behind its loop. Both ends are pthread_exit (NULL).
unfoldable pub add_line : Prog Call Reply (Unit {0})
add_line = do
  printf "now add data \"hello world!\\n\"\n" []
  p ← sys (fputs hello)
  if is_minus_one p.ret
      then perror "fputs error: "
      else (do sys_ (sleep 3); printf "finish, unlock!\n" []; sys_ funlockfile)

unfoldable pub mod_file_thread : ℕ → Prog Call Reply (Unit {0})
mod_file_thread fuel = do
  printf "<thread start>\n" []
  sys_ flockfile
  printf "lock!, data file contents:\n" []
  show_file fuel
  add_line

unfoldable pub main : List (List ℕ) → Prog Call Reply (Unit {0})
main (name ∷ path ∷ _) = do
  fp ← sys (fopen path)
  when (is_zero fp.ret) do perror "fopen error: "; exit minus_one
  sys_ (pthread_create 1)
  sys_ (pthread_create 2)
  sys_ (pthread_join 1)
  sys_ (pthread_join 2)
  exit (pos 0)
main (name ∷ []) = do printf "Usage: %s <data-file>\n" (str name ∷ []); exit minus_one
main [] = do printf "Usage: %s <data-file>\n" []; exit minus_one
