-- ===== src/Ipc/Shm/Memory.antt =====
-- A kernel for the shared memory programs: one object, and what the user types.
use linux_system_programming.Prelude.{
  ℕ, zero, suc, ◌-◌, ℤ, pos, minus_one, same_ℤ, Bool, true, not, ◌||◌, length, leb, take, List, [],
  ◌∷◌, ◌++◌, Option, none, some, if◌then◌else◌, ◌==◌, zeros,
}
use linux_system_programming.Sys.{Reply, Kernel}
use linux_system_programming.Libc.{overlay}
use linux_system_programming.Ipc.Shm.{
  Call, shm_open_create, shm_open_read, ftruncate, mmap, fgets, load, munmap, shm_unlink, ftok,
  shmget, shmat, shmdt, shmctl_rmid,
}

-- What `fgets` takes of the input with room for `n` characters: a line with its newline.
unfoldable pub line : ℕ → List ℕ → List ℕ
line zero input = []
line (suc n) [] = []
line (suc n) (c ∷ input) = let rest = line n input in if c == 10 then c ∷ [] else c ∷ rest

-- The object, if there is one, under the key that ftok gives, the only key here; `refuse` is a
-- kernel that attaches nothing. `fault` says that a store went past the end of the object, which is
-- a SIGBUS; the call then fails.
pub record Memory : Type 0 where
  pub object : Option (List ℕ)
  pub input : List ℕ
  pub refuse : Bool
  pub fault : Bool

abbrev value : ℤ → Reply
value n = record { ret = n; errno = 0; text = [] }

abbrev contents : Option (List ℕ) → List ℕ
contents none = []
contents (some bytes) = bytes

-- The descriptor, or identifier, of the object; a call with any other fails.
abbrev is_handle : ℤ → Bool
is_handle d = same_ℤ d (pos 3)

-- An object of another size: cut, or longer by NULs.
abbrev pub resized : ℕ → List ℕ → List ℕ
resized size bytes = take size (bytes ++ zeros size)

abbrev opened : Memory → Option (List ℕ) → Reply × Memory
opened m none = (value minus_one, m)
opened m (some _) = (value (pos 3), m)

-- An object that exists stays as it is; a new one of shm_open has no bytes.
abbrev created : Memory → Option (List ℕ) → Reply × Memory
created m none = (value (pos 3), record m { object = some [] })
created m (some _) = (value (pos 3), m)

abbrev truncated : ℕ → Memory → Option (List ℕ) → Reply × Memory
truncated size m none = (value minus_one, m)
truncated size m (some bytes) = (value (pos 0), record m { object = some (resized size bytes) })

-- A segment that exists is given if it is long enough (EINVAL if not); a new one is of the size asked
-- for.
abbrev got : ℕ → Memory → Option (List ℕ) → Reply × Memory
got size m none = (value (pos 3), record m { object = some (zeros size) })
got size m (some bytes) =
    if leb size (length bytes) then (value (pos 3), m) else (value minus_one, m)

abbrev stored_at : List ℕ → List ℕ → Memory → Reply × Memory
stored_at text old m =
    if leb (length text) (length old)
    then (value (pos 1), record m { object = some (overlay text old) })
    else (value (pos 0), record m { fault = true })

-- At the end of the input fgets gives a null pointer and stores nothing.
abbrev typed : ℕ → Memory → List ℕ → Reply × Memory
typed size m [] = (value (pos 0), m)
typed size m (c ∷ input) = stored_at (line (size - 1) (c ∷ input) ++ (0 ∷ [])) (contents m.object) m

abbrev attached : Bool → Memory → Reply × Memory
attached bad m = (if m.refuse || bad then value minus_one else value (pos 8192), m)

unfoldable pub shm : Kernel Call Reply Memory
shm shm_open_create m = created m m.object
shm shm_open_read m = opened m m.object
shm (ftruncate fd size) m = if is_handle fd then truncated size m m.object else (value minus_one, m)
shm (mmap size fd) m = attached (not (is_handle fd)) m
shm (fgets size) m = typed size m m.input
shm load m = (record { ret = pos 0; errno = 0; text = contents m.object }, m)
shm (munmap size) m = (value (pos 0), m)
shm shm_unlink m = (value (pos 0), record m { object = none })
shm ftok m = (value (pos 7), m)
shm (shmget key size) m = if same_ℤ key (pos 7) then got size m m.object else (value minus_one, m)
shm (shmat shmid) m = attached (not (is_handle shmid)) m
shm shmdt m = (value (pos 0), m)
shm (shmctl_rmid shmid) m =
    if is_handle shmid then (value (pos 0), record m { object = none }) else (value minus_one, m)
