-- ===== src/Files/Mmap.antt =====
-- mmap_example.c: print a file through a memory mapping.
pub mod Laws
mod Tests
use linux_system_programming.Prelude.{
  ℕ, zero, suc, ◌+◌, ◌/◌, ◌%◌, ℤ, pos, minus_one, is_minus_one, Bool, not, List, [], ◌∷◌, ◌++◌,
  ◌==◌, ltb, get_elem?, Option, none, some, if◌then◌else◌, ◌≡◌, arith, length, map, take, drop, ◌≤◌,
  refl, get_elem?, inl, inr, drop-eq-cons, append-nil, true, false, ◌-◌,
}
use linux_system_programming.Sys.{
  Arg, num, str, Line, out, Prog, ret, halt, print, call, ◌>>=◌, ◌>>◌, sys, sys_, printf, perror,
  exit, when, run->>=, Run, Kernel, run, exited, undefined, End, done, halted, log_line,
}

-- The calls of the program; `path` is `argv[1]`.
pub data Call : Type 0 where
  open_file : (path : List ℕ) → Call  -- open (path, O_RDONLY)
  fstat : (fd : ℤ) → Call
  mmap : (len : ℕ) (fd : ℤ) → Call  -- mmap (0, len, PROT_READ, MAP_SHARED, fd, 0)
  close : (fd : ℤ) → Call
  munmap : (address : ℤ) (len : ℕ) → Call

-- The value of the call, with the fields of `struct stat` and the mapped bytes where it has them.
pub record Reply : Type 0 where
  pub ret : ℤ
  pub st_mode : ℕ
  pub st_size : ℕ
  pub memory : List ℕ

-- S_ISREG: the file type bits, S_IFMT = 0170000, are S_IFREG = 0100000.
unfoldable pub s_isreg : ℕ → Bool
s_isreg mode = mode / 0o10000 % 16 == 8

-- INT_MAX
abbrev pub int_max : ℕ
int_max = 2147483647

-- `for (int i = 0; i < sb.st_size; ++i) putchar (p[i])` with `n` rounds left. A read past the mapping
-- is undefined, and so is an increment of `i` past INT_MAX.
unfoldable pub put_chars : ℕ → ℕ → List ℕ → Prog Call Reply (Unit {0})
put_chars zero i p = ret tt
put_chars (suc n) i p =
    let rest = put_chars n (i + 1) p in
    elim (get_elem? p i) [
      | none ↦ halt undefined
      | some c ↦
          print (out "%c" (num (pos c) ∷ [])) (if ltb i int_max then rest else halt undefined)
    ]

unfoldable pub main : List (List ℕ) → Prog Call Reply (Unit {0})
main [] = do printf "Usage: %s <file>\n" []; exit minus_one
main (name ∷ []) = do printf "Usage: %s <file>\n" (str name ∷ []); exit minus_one
main (name ∷ path ∷ _) = do
  fd ← sys (open_file path)
  when (is_minus_one fd.ret) do perror "oepn error: "; exit minus_one
  sb ← sys (fstat fd.ret)
  when (is_minus_one sb.ret) do perror "fstat error: "; exit minus_one
  when (not (s_isreg sb.st_mode))
      do printf "file %s is not a file\n" (str path ∷ []); exit minus_one
  p ← sys (mmap sb.st_size fd.ret)
  when (is_minus_one p.ret) do perror "mmap error: "; exit minus_one
  c ← sys (close fd.ret)
  when (is_minus_one c.ret) do perror "close error: "; exit minus_one
  put_chars sb.st_size 0 p.memory
  u ← sys (munmap p.ret sb.st_size)
  when (is_minus_one u.ret) do perror "munmap error: "; exit minus_one
  exit (pos 0)
