-- ===== src/Files/Access.antt =====
-- access_example.c, chmod_example.c and creat_example.c: permissions of a file.
pub mod Node
pub mod Laws
mod Tests
use linux_system_programming.Prelude.{
  ℕ, ◌+◌, ℤ, pos, minus_one, is_zero, is_negative, not, List, [], ◌∷◌, if◌then◌else◌,
}
use linux_system_programming.Sys.{
  Reply, str, Prog, ret, halt, print, call, ◌>>=◌, ◌>>◌, sys, printf, exit, when, out, num,
}
use linux_system_programming.Libc.{codes}

pub data Call : Type 0 where
  access : (mode : ℕ) → Call  -- of "./a.out"
  chmod : (mode : ℕ) → Call  -- of "./a.out"
  creat : (mode : ℕ) → Call  -- of "/tmp/file"

-- F_OK, W_OK and R_OK; S_IRWXU | S_IRWXG; S_IRUSR | S_IWUSR | S_IRGRP | S_IROTH.
abbrev pub f_ok : ℕ
f_ok = 0

abbrev pub w_ok : ℕ
w_ok = 2

abbrev pub r_ok : ℕ
r_ok = 4

abbrev pub rwx_user_group : ℕ
rwx_user_group = 0o770

abbrev pub rw_r_r : ℕ
rw_r_r = 0o644

-- The printed texts are translated.
unfoldable pub access_main : Prog Call Reply (Unit {0})
access_main = do
  a ← sys (access (r_ok + w_ok))
  if is_zero a.ret
      then printf "can read and write!\n" []
      else printf "no permission, or no file.\n" []
  exit (pos 0)

unfoldable pub chmod_main : Prog Call Reply (Unit {0})
chmod_main = do
  a ← sys (access f_ok)
  if is_zero a.ret
      then (do
        c ← sys (chmod rwx_user_group)
        when (not (is_zero c.ret)) do printf "chmod() error\n" []; exit minus_one)
      else (do printf "file(%s) access error\n" (str (codes "./a.out") ∷ []); exit minus_one)
  exit (pos 0)

-- The text of strerror (errno) is left as the number.
unfoldable pub creat_main : Prog Call Reply (Unit {0})
creat_main = do
  fd ← sys (creat rw_r_r)
  when (is_negative fd.ret) do printf "creat error: %s\n" (num (pos fd.errno) ∷ []); exit minus_one
  exit (pos 0)
