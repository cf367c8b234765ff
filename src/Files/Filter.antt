-- ===== src/Files/Filter.antt =====
-- stdio_example2.c: overwrite the special characters of a file by blanks, through one stream.
use linux_system_programming.Prelude.{
  ℕ, zero, suc, pos, minus_one, is_zero, is_minus_one, pos_part, Bool, ◌||◌, List, [], ◌∷◌, ◌==◌,
  if◌then◌else◌,
}
use linux_system_programming.Sys.{
  Reply, str, Prog, ret, halt, ◌>>=◌, ◌>>◌, sys, printf, perror, exit, when, out_of_fuel,
}

pub data Call : Type 0 where
  fopen : (path : List ℕ) → Call  -- fopen (path, "r+"); a null pointer on failure
  fgetc : Call
  ungetc : (c : ℕ) → Call
  fputc : (c : ℕ) → Call
  fclose : Call

-- The characters that the `if` lists.
unfoldable pub is_special : ℕ → Bool
is_special c =
    c == b'!'
    || c == b'@'
    || c == b'#'
    || c == b'$'
    || c == b'%'
    || c == b'^'
    || c == b'&'
    || c == b'*'
    || c == b'-'
    || c == b'_'

-- The body of the `if`.
unfoldable pub blank_out : ℕ → Prog Call Reply (Unit {0})
blank_out c = do
  u ← sys (ungetc c)
  when (is_minus_one u.ret) do perror "ungetc error: "; exit minus_one
  p ← sys (fputc b' ')
  when (is_minus_one p.ret) do perror "fputc error: "; exit minus_one

-- The `while`, within a number of rounds.
unfoldable pub filter : ℕ → Prog Call Reply (Unit {0})
filter zero = halt out_of_fuel
filter (suc fuel) = do
  c ← sys fgetc
  if is_minus_one c.ret
      then ret tt
      else (do when (is_special (pos_part c.ret)) (blank_out (pos_part c.ret)); filter fuel)

unfoldable pub main : ℕ → List (List ℕ) → Prog Call Reply (Unit {0})
main fuel [] = do printf "Usage: %s <file>\n" []; exit minus_one
main fuel (name ∷ []) = do printf "Usage: %s <file>\n" (str name ∷ []); exit minus_one
main fuel (name ∷ path ∷ _) = do
  fp ← sys (fopen path)
  when (is_zero fp.ret) do perror "fopen error: "; exit minus_one
  filter fuel
  c ← sys fclose
  when (is_minus_one c.ret) do perror "fclose error: "; exit minus_one
  exit (pos 0)
