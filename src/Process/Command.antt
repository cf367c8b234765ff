-- ===== src/Process/Command.antt =====
-- popen_example.c: print the output of the command "pwd".
pub mod Output
pub mod Laws
mod Tests
use linux_system_programming.Prelude.{
  ℕ, zero, suc, ℤ, pos, is_zero, is_minus_one, List, [], ◌∷◌, none, some, if◌then◌else◌,
}
use linux_system_programming.Sys.{
  Reply, str, Prog, ret, halt, print, call, ◌>>=◌, ◌>>◌, sys, printf, eprintf, exit, when,
  out_of_fuel, err, out,
}

pub data Call : Type 0 where
  popen : Call  -- popen ("pwd", "r")
  fgets : (size : ℕ) → Call
  pclose : Call

-- The `while`, within a number of rounds; fgets leaves a terminated text in `buff`.
unfoldable pub show_output : ℕ → Prog Call Reply (Unit {0})
show_output zero = halt out_of_fuel
show_output (suc fuel) = do
  r ← sys (fgets 1024)
  if is_zero r.ret then ret tt else (do printf "%s" (str r.text ∷ []); show_output fuel)

unfoldable pub main : ℕ → Prog Call Reply (Unit {0})
main fuel = do
  fp ← sys popen
  when (is_zero fp.ret) do eprintf "popen error: %m\n"; exit (pos 1)
  printf "Current Path is " []
  show_output fuel
  status ← sys pclose
  when (is_minus_one status.ret) do eprintf "pclose error: %m\n"; exit (pos 1)
  exit (pos 0)
