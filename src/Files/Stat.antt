-- ===== src/Files/Stat.antt =====
-- stat_example.c: print the size of a file.
use linux_system_programming.Prelude.{ℕ, ℤ, pos, minus_one, is_zero, not, List, [], ◌∷◌}
use linux_system_programming.Sys.{str, num, Prog, ◌>>=◌, ◌>>◌, sys, printf, perror, exit, when}

pub data Call : Type 0 where
  stat : (path : List ℕ) → Call

-- The value of the call, and sb.st_size.
pub record Reply : Type 0 where
  pub ret : ℤ
  pub st_size : ℕ

unfoldable pub main : List (List ℕ) → Prog Call Reply (Unit {0})
main (name ∷ path ∷ _) = do
  r ← sys (stat path)
  when (not (is_zero r.ret)) do perror "stat error: "; exit minus_one
  printf "file(%s) is %ld bytes\n" (str path ∷ num (pos r.st_size) ∷ [])
  exit (pos 0)
main (name ∷ []) = do printf "Usage: %s <file>\n" (str name ∷ []); exit minus_one
main [] = do printf "Usage: %s <file>\n" []; exit minus_one
