-- ===== src/Process/Kill.antt =====
-- kill_example.c: send a signal to a process.
use linux_system_programming.Prelude.{ℕ, ℤ, pos, minus_one, is_minus_one, List, [], ◌∷◌}
use linux_system_programming.Sys.{Reply, str, Prog, ◌>>=◌, ◌>>◌, sys, printf, perror, exit, when}
use linux_system_programming.Libc.{atoi}

pub data Call : Type 0 where
  kill : (pid sig : ℤ) → Call

unfoldable pub main : List (List ℕ) → Prog Call Reply (Unit {0})
main (name ∷ signo ∷ pid ∷ _) = do
  k ← sys (kill (atoi pid) (atoi signo))
  when (is_minus_one k.ret) do perror "kill error: "; exit minus_one
  exit (pos 0)
main (name ∷ _) = do printf "Usage: %s <signo> <pid>\n" (str name ∷ []); exit minus_one
main [] = do printf "Usage: %s <signo> <pid>\n" []; exit minus_one
