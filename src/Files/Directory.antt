-- ===== src/Files/Directory.antt =====
-- directory_example.c: look for a file among the entries of a directory.
pub mod Listing
pub mod Laws
mod Tests
use linux_system_programming.Prelude.{
  ℕ, zero, suc, ℤ, pos, minus_one, is_zero, Bool, true, false, not, ◌&&◌, List, [], ◌∷◌, ◌==◌,
  if◌then◌else◌,
}
use linux_system_programming.Libc.{same_text}
use linux_system_programming.Sys.{
  Reply, str, Prog, ret, halt, print, call, ◌>>=◌, ◌>>◌, sys, sys_, printf, perror, exit, when,
  out_of_fuel, out, err,
}

pub data Call : Type 0 where
  opendir : (path : List ℕ) → Call
  set_errno : (value : ℕ) → Call  -- errno = value
  readdir : Call  -- a null pointer at the end and on an error, which sets errno
  printed : Call  -- what the printf of the found file does to errno
  get_errno : Call  -- a read of errno
  closedir : Call

-- The `while`, within a number of rounds: `found`.
unfoldable pub search_dir : ℕ → List ℕ → Prog Call Reply Bool
search_dir zero file = halt out_of_fuel
search_dir (suc fuel) file = do
  entry ← sys readdir
  if is_zero entry.ret
      then ret false
      else if same_text entry.text file
      then (do printf "found! file(%s) exist\n" (str file ∷ []); sys_ printed; ret true)
      else search_dir fuel file

unfoldable pub main : ℕ → List (List ℕ) → Prog Call Reply (Unit {0})
main fuel (name ∷ path ∷ file ∷ _) = do
  dir ← sys (opendir path)
  when (is_zero dir.ret) do perror "oepndir error: "; exit minus_one
  sys_ (set_errno 0)
  found ← search_dir fuel file
  e ← sys get_errno
  when (not (e.errno == 0)) do perror "readdir error: "; sys_ closedir; exit minus_one
  when (not found) (printf "file(%s) doesn't exist!\n" (str file ∷ []))
  sys_ closedir
  exit (pos 0)
main fuel (name ∷ _) = do printf "Usage: %s <dir> <file>\n" (str name ∷ []); exit minus_one
main fuel [] = do printf "Usage: %s <dir> <file>\n" []; exit minus_one
