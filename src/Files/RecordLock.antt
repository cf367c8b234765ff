-- ===== src/Files/RecordLock.antt =====
-- record_lock_test.c: lock a record of a file, change its '0' and '9' bytes to 'x', unlock it.
pub mod Disk
pub mod Masked
pub mod Laws
mod Tests
use linux_system_programming.Prelude.{
  ℕ, zero, suc, ◌+◌, ◌-◌, ◌≤◌, ◌<◌, ℤ, pos, negsuc, minus_one, is_minus_one, is_negative, pos_part,
  Bool, true, false, ◌&&◌, ◌||◌, not, List, [], ◌∷◌, ◌++◌, map, Option, none, some, ◌==◌, ltb, leb,
  if◌then◌else◌, ◌≡◌, refl, arith, length, get_elem?, set, take, drop, zeros,
}
use linux_system_programming.Sys.{
  Reply, Arg, num, str, Line, out, err, Prog, ret, halt, print, call, ◌>>=◌, ◌>>◌, sys, sys_,
  printf, perror, exit, when, Run, Kernel, run, exited, undefined, done, halted,
}
use linux_system_programming.Libc.{atoi, c_string, to_size, overlay}

pub data Call : Type 0 where
  open_file : (path : List ℕ) → Call  -- open (path, O_RDWR)
  set_lock : (l_type : ℕ) (fd start len : ℤ) → Call  -- fcntl (fd, F_SETLK, &lock), SEEK_SET
  lseek : (fd offset : ℤ) → Call  -- lseek (fd, offset, SEEK_SET)
  read : (fd : ℤ) (count : ℕ) → Call
  write : (fd : ℤ) (buf : List ℕ) (count : ℕ) → Call
  sleep : (seconds : ℕ) → Call
  close : (fd : ℤ) → Call

abbrev pub lock_t : ℕ
lock_t = 0

abbrev pub unlock_t : ℕ
unlock_t = 1

abbrev pub bufsize : ℕ
bufsize = 1024

-- F_WRLCK and F_UNLCK of Linux
abbrev pub f_wrlck : ℕ
f_wrlck = 1

abbrev pub f_unlck : ℕ
f_unlck = 2

-- `(type == LOCK_T) ? : F_UNLCK`: the value of the test itself, 1, if it is not 0.
unfoldable pub lock_type : ℕ → ℕ
lock_type type =
    let test : ℕ = if type == lock_t then 1 else 0 in if test == 0 then f_unlck else test

unfoldable pub record_lock : ℕ → ℤ → ℤ → ℤ → Prog Call Reply Reply
record_lock type fd start len = sys (set_lock (lock_type type) fd start len)

-- The loop over `buf`, `n` rounds from `i`; `none` for an index outside of the array.
unfoldable pub modify : ℕ → ℕ → List ℕ → Option (List ℕ)
modify zero i buf = some buf
modify (suc n) i buf = elim (get_elem? buf i) [
  | none ↦ none
  | some c ↦ modify n (i + 1) (if c == b'0' || c == b'9' then set buf i b'x' else buf)
]

-- From the `lseek` before the read up to `return 0`.
unfoldable pub process : ℤ → ℤ → ℤ → Prog Call Reply (Unit {0})
process fd record_start record_len = do
  sys_ (lseek fd record_start)
  r ← sys (read fd (to_size record_len))
  when (is_negative r.ret) do perror "read error: "; exit (pos 0)
  when (ltb bufsize (length r.text)) (halt undefined)
  let buf = overlay r.text (zeros bufsize)
  elim (c_string buf) [
    | none ↦ halt undefined
    | some text ↦ printf "record data = %s\n" (str text ∷ [])
  ]
  elim (modify (pos_part record_len) 0 buf) [
    | none ↦ halt undefined
    | some new ↦ do
      sys_ (lseek fd record_start)
      sys_ (write fd new (to_size record_len))
      sys_ (sleep 20)
      printf "record lock process done\n" []
      u ← record_lock unlock_t fd record_start record_len
      when (is_minus_one u.ret) do perror "record unlock error: "; exit (pos 0)
      sys_ (close fd)
      exit (pos 0)
  ]

abbrev usage : List (List ℕ) → Prog Call Reply (Unit {0})
usage argv = do
  printf "Usage: %s [record file] [record start] [record length]\n" (map str argv)
  exit (pos 0)

unfoldable pub main : List (List ℕ) → Prog Call Reply (Unit {0})
main (name ∷ path ∷ start ∷ len ∷ _) = do
  fd ← sys (open_file path)
  when (is_minus_one fd.ret) do perror "file open error: "; exit (pos 0)
  let record_start = atoi start
  let record_len = atoi len
  when (ltb bufsize (pos_part record_len)) do
    printf "record_len(%d) cannot over %d\n" (num record_len ∷ num (pos bufsize) ∷ [])
    exit (pos 0)
  l ← record_lock lock_t fd.ret record_start record_len
  when (is_minus_one l.ret) do perror "record lock error: "; exit (pos 0)
  process fd.ret record_start record_len
main argv = usage (take 1 argv)
