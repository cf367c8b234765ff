-- ===== src/Ipc/Shm.antt =====
-- POSIX/posix_shm_write.c and posix_shm_read.c, SysV/shm_write.c and shm_read.c: one process puts a
-- line into shared memory, another prints it and removes the memory.
pub mod Memory
pub mod Laws
mod Tests
use linux_system_programming.Prelude.{
  ℕ, ℤ, pos, is_minus_one, is_zero, List, [], ◌∷◌, none, some, if◌then◌else◌, String,
}
use linux_system_programming.Sys.{
  Reply, str, Prog, ret, halt, print, call, ◌>>=◌, ◌>>◌, sys, sys_, printf, perror, exit, when,
  undefined, err, out,
}
use linux_system_programming.Libc.{c_string}

-- `load` is a read of the whole attached memory: the argument of `printf ("%s", ptr)`.
pub data Call : Type 0 where
  shm_open_create : Call  -- shm_open ("shmtest", O_CREAT | O_RDWR, 0666)
  shm_open_read : Call  -- shm_open ("shmtest", O_RDONLY, 0666)
  ftruncate : (fd : ℤ) (size : ℕ) → Call
  mmap : (size : ℕ) (fd : ℤ) → Call
  fgets : (size : ℕ) → Call  -- from stdin to the attached memory
  load : Call
  munmap : (size : ℕ) → Call
  shm_unlink : Call
  ftok : Call  -- ftok ("shmtest", 1234)
  shmget : (key : ℤ) (size : ℕ) → Call  -- IPC_CREAT | 0666
  shmat : (shmid : ℤ) → Call
  shmdt : Call
  shmctl_rmid : (shmid : ℤ) → Call

-- `printf (format, ptr)`
abbrev pub show_memory : String → Prog Call Reply (Unit {0})
show_memory format = do
  m ← sys load
  elim (c_string m.text) [ none ↦ halt undefined | some t ↦ printf format (str t ∷ []) ]

unfoldable pub posix_write : Prog Call Reply (Unit {0})
posix_write = do
  fd ← sys shm_open_create
  when (is_minus_one fd.ret) do perror "shm_open error: "; exit (pos 1)
  t ← sys (ftruncate fd.ret 1024)
  when (is_minus_one t.ret) do perror "ftruncate error: "; exit (pos 1)
  ptr ← sys (mmap 1024 fd.ret)
  when (is_minus_one ptr.ret) do perror "mmap error: "; exit (pos 1)
  printf "Input data: " []
  g ← sys (fgets 1024)
  when (is_zero g.ret) do perror "fgets erro: "; exit (pos 1)
  show_memory "Written data: %s\n"
  sys_ (munmap 1024)
  exit (pos 0)

unfoldable pub posix_read : Prog Call Reply (Unit {0})
posix_read = do
  fd ← sys shm_open_read
  when (is_minus_one fd.ret) do perror "shm_open error: "; exit (pos 1)
  ptr ← sys (mmap 1024 fd.ret)
  when (is_minus_one ptr.ret) do perror "mmap error: "; exit (pos 1)
  show_memory "data: %s"
  sys_ (munmap 1024)
  sys_ shm_unlink
  exit (pos 0)

-- The address that shmat gives is used unchecked: after a failure it is (char *) -1, and its use is
-- undefined.
abbrev pub use_address : ℤ → Prog Call Reply (Unit {0})
use_address address = when (is_minus_one address) (halt undefined)

unfoldable pub sysv_write : Prog Call Reply (Unit {0})
sysv_write = do
  key ← sys ftok
  shmid ← sys (shmget key.ret 1024)
  address ← sys (shmat shmid.ret)
  printf "input data: " []
  use_address address.ret
  g ← sys (fgets 1024)
  when (is_zero g.ret) do perror "fgets erro: "; exit (pos 1)
  show_memory "Written data: %s\n"
  sys_ shmdt
  exit (pos 0)

unfoldable pub sysv_read : Prog Call Reply (Unit {0})
sysv_read = do
  key ← sys ftok
  shmid ← sys (shmget key.ret 1024)
  address ← sys (shmat shmid.ret)
  use_address address.ret
  show_memory "read data: %s\n"
  sys_ shmdt
  sys_ (shmctl_rmid shmid.ret)
  exit (pos 0)
