-- ===== src/Process/Pipe.antt =====
-- pipe_example.c: a parent asks its child over one pipe and hears over another.
pub mod Both
pub mod Laws
mod Tests
use linux_system_programming.Prelude.{
  ℕ, ℤ, pos, minus_one, is_minus_one, is_negative, is_zero, List, [], ◌∷◌, ◌++◌, none, some,
  if◌then◌else◌, zeros, String,
}
use linux_system_programming.Sys.{
  str, Prog, ret, halt, print, call, ◌>>=◌, ◌>>◌, sys, sys_, printf, eprintf, exit, when, undefined,
  err, out,
}
use linux_system_programming.Libc.{c_string, overlay, codes}

pub data Call : Type 0 where
  pipe : Call
  fork : Call
  close : (fd : ℤ) → Call
  write : (fd : ℤ) (bytes : List ℕ) → Call
  read : (fd : ℤ) (size : ℕ) → Call
  wait : Call

-- The value of the call; `fd[0]` and `fd[1]` behind pipe; the bytes of a read.
pub record Reply : Type 0 where
  pub ret : ℤ
  pub fd0 : ℤ
  pub fd1 : ℤ
  pub text : List ℕ

-- `read` into a buffer of 128 zeros, which is printed later.
abbrev pub shown : Reply → String → Prog Call Reply (Unit {0})
shown r format = elim (c_string (overlay r.text (zeros 128))) [
  | none ↦ halt undefined
  | some text ↦ printf format (str text ∷ [])
]

unfoldable pub parent : Reply → Reply → Prog Call Reply (Unit {0})
parent fd1 fd2 = do
  sys_ (close fd1.fd0)
  sys_ (write fd1.fd1 (codes "Did you understand?" ++ (0 ∷ [])))
  sys_ (close fd1.fd1)
  sys_ wait
  sys_ (close fd2.fd1)
  r ← sys (read fd2.fd0 128)
  sys_ (close fd2.fd0)
  shown r "[Parent] read from Child: %s\n"

unfoldable pub child : Reply → Reply → Prog Call Reply (Unit {0})
child fd1 fd2 = do
  sys_ (close fd1.fd1)
  r ← sys (read fd1.fd0 128)
  sys_ (close fd1.fd0)
  shown r "[Child] read from Parent: %s\n"
  sys_ (close fd2.fd0)
  sys_ (write fd2.fd1 (codes "OK!" ++ (0 ∷ [])))
  sys_ (close fd2.fd1)
  exit (pos 0)

unfoldable pub main : Prog Call Reply (Unit {0})
main = do
  fd1 ← sys pipe
  when (is_minus_one fd1.ret) do eprintf "pipe error: %m"; exit minus_one
  fd2 ← sys pipe
  when (is_minus_one fd2.ret) do eprintf "pipe error: %m"; exit minus_one
  p ← sys fork
  if is_negative p.ret
      then (do eprintf "fork error: %m"; exit (pos 1))
      else if is_zero p.ret
      then child fd1 fd2
      else parent fd1 fd2
  exit (pos 0)
