-- ===== src/Files/Position.antt =====
-- stdio_example3.c: the position in a stream, and when buffered output reaches the terminal.
pub mod Terminal
pub mod Laws
mod Tests
use linux_system_programming.Prelude.{
  ℕ, zero, suc, ℤ, pos, minus_one, is_zero, is_minus_one, Bool, true, false, List, [], ◌∷◌,
  if◌then◌else◌,
}
use linux_system_programming.Sys.{
  Reply, num, Line, Prog, ret, halt, print, call, ◌>>=◌, ◌>>◌, sys, sys_, perror, exit, when, err,
  out,
}
use linux_system_programming.Libc.{codes}

-- Output to stdout is a call here, since its buffer is what the program is about.
pub data Call : Type 0 where
  fopen : Call  -- fopen ("./test.txt", "w+")
  fprintf : (text : List ℕ) → Call  -- to that stream
  ftell : Call
  rewind : Call
  fclose : Call
  put : (line : Line) (newline : Bool) → Call  -- to stdout
  fflush : Call  -- fflush (stdout)
  sleep : (seconds : ℕ) → Call

abbrev pub hello : List ℕ
hello = codes "hello world!\n"

abbrev pub at_line : ℤ → Line
at_line n = out "current pos is %ld\n" (num n ∷ [])

abbrev pub dot : Line
dot = out "." []

abbrev pub newline : Line
newline = out "\n" []

-- ftell with its test, and the line about it
unfoldable pub tell : Prog Call Reply (Unit {0})
tell = do
  p ← sys ftell
  when (is_minus_one p.ret) do perror "ftell error: "; exit minus_one
  sys_ (put (at_line p.ret) true)

-- The two loops: with fflush and without it.
unfoldable pub dots : Bool → ℕ → Prog Call Reply (Unit {0})
dots flush zero = ret tt
dots flush (suc n) = do sys_ (put dot false); when flush (sys_ fflush); sys_ (sleep 1); dots flush n

-- The part about the file.
unfoldable pub positions : Prog Call Reply (Unit {0})
unfolding tell
positions = do
  fp ← sys fopen
  when (is_zero fp.ret) do perror "fopen error: "; exit minus_one
  sys_ (fprintf hello)
  tell
  sys_ (put (out "move pos to start\n" []) true)
  sys_ rewind
  tell
  sys_ fclose

unfoldable pub main : Prog Call Reply (Unit {0})
main = do
  positions
  dots false 5
  sys_ (put newline true)
  dots true 5
  sys_ (put newline true)
  exit (pos 0)
