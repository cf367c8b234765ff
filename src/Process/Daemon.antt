-- ===== src/Process/Daemon.antt =====
-- daemon_example.c: a process that leaves its terminal and goes on printing.
pub mod Console
pub mod Laws
mod Tests
use linux_system_programming.Prelude.{
  ℕ, zero, suc, ℤ, minus_one, is_minus_one, List, String, if◌then◌else◌,
}
use linux_system_programming.Sys.{
  Reply, Prog, ret, halt, print, call, ◌>>=◌, ◌>>◌, sys, sys_, perror, exit, when, out_of_fuel, err,
}

-- Output to stdout is a call here, since where it goes is what the program is about.
pub data Call : Type 0 where
  put : (text : String) → Call  -- printf (text)
  daemon : Call  -- daemon (0, 0)
  sleep : (seconds : ℕ) → Call

-- `while (1)`, for a number of rounds.
unfoldable pub forever : ℕ → Prog Call Reply (Unit {0})
forever zero = halt out_of_fuel
forever (suc fuel) = do sys_ (put "not print line!\n"); sys_ (sleep 1); forever fuel

unfoldable pub main : ℕ → Prog Call Reply (Unit {0})
main fuel = do
  sys_ (put "daemon start\n")
  d ← sys daemon
  when (is_minus_one d.ret) do perror "daemon erro: "; exit minus_one
  forever fuel
