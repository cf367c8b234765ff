-- ===== src/Threads/SemPrint.antt =====
-- SysV/sem_example.c: two threads print one text together, under a semaphore or without it.
pub mod Invariant
pub mod Race
pub mod Termination
pub mod Refinement
pub mod Joined
mod Tests
use linux_system_programming.Prelude.{
  ℕ, zero, suc, ◌+◌, ◌-◌, ◌≤◌, ◌<◌, Bool, true, false, List, [], ◌∷◌, ◌++◌, Option, none, some, ◌≡◌,
  leb, ◌&&◌, if◌then◌else◌, length, get_elem?,
}

-- `toupper` and `tolower` in the C locale.
abbrev pub to_upper : ℕ → ℕ
to_upper c = if leb b'a' c && leb c b'z' then c - 32 else c

abbrev pub to_lower : ℕ → ℕ
to_lower c = if leb b'A' c && leb c b'Z' then c + 32 else c

-- What the threads share: the semaphore, `shared_index`, the characters printed so far, and
-- whether a failed `semop` has ended the process.
pub record Memory : Type 0 where
  pub sem : ℕ
  pub index : ℕ
  pub printed : List ℕ
  pub over : Bool

-- Where a thread stands in `print_one`, with the local variables that are live there.
pub data Pc : Type 0 where
  head : (b : Bool) → Pc  -- `while (b)`
  acquire : Pc
  check : Pc  -- `if (shared_index >= strlen (shared_buf))`
  load : Pc  -- before `shared_index` is read for the increment
  got : (i : ℕ) → Pc  -- before it is stored back
  have : (c : ℕ) → Pc  -- before `putchar (c)`
  release : (b : Bool) → Pc
  finished : Pc  -- pthread_exit

-- The conversion that `tidx` selects.
abbrev pub convert : Bool → ℕ → ℕ
convert true c = to_upper c
convert false c = to_lower c

-- One step of the thread with index `tidx`. `use` is `sem_use`; `shared_buf` is the text and a NUL.
pub data Move (use_sem : Bool) (text : List ℕ) (tidx : Bool) (m : Memory)
    : Pc → Memory → Pc → Type 0 where
  enter : Move use_sem text tidx m (head true) m acquire
  leave : Move use_sem text tidx m (head false) m finished
  p_op :
      use_sem ≡ true
      → 0 < m.sem
      → Move use_sem text tidx m acquire (record m { sem = m.sem - 1 }) check
  p_fail : use_sem ≡ true → Move use_sem text tidx m acquire (record m { over = true }) acquire
  p_skip : use_sem ≡ false → Move use_sem text tidx m acquire m check
  at_end : length text ≤ m.index → Move use_sem text tidx m check m (release false)
  more : m.index < length text → Move use_sem text tidx m check m load
  load_index : Move use_sem text tidx m load m (got m.index)
  fetch :
      {i c : ℕ}
      → get_elem? (text ++ (0 ∷ [])) i ≡ some c
      → Move use_sem text tidx m (got i) (record m { index = i + 1 }) (have (convert tidx c))
  put :
      {c : ℕ}
      → Move use_sem text tidx m
          (have c)
          (record m { printed = m.printed ++ (c ∷ []) })
          (release true)
  v_op :
      {b : Bool}
      → use_sem ≡ true
      → Move use_sem text tidx m (release b) (record m { sem = m.sem + 1 }) (head b)
  v_fail :
      {b : Bool}
      → use_sem ≡ true
      → Move use_sem text tidx m (release b) (record m { over = true }) (release b)
  v_skip : {b : Bool} → use_sem ≡ false → Move use_sem text tidx m (release b) m (head b)

-- The two threads of `main`, thread 0 first.
pub record System : Type 0 where
  pub mem : Memory
  pub first : Pc
  pub second : Pc

-- Either thread moves, as long as the process runs.
pub data Step (use_sem : Bool) (text : List ℕ) (s : System) : System → Type 0 where
  step_first :
      {m : Memory} {p : Pc}
      → s.mem.over ≡ false
      → Move use_sem text false s.mem s.first m p
      → Step use_sem text s (record s { mem = m; first = p })
  step_second :
      {m : Memory} {p : Pc}
      → s.mem.over ≡ false
      → Move use_sem text true s.mem s.second m p
      → Step use_sem text s (record s { mem = m; second = p })

-- `main` sets the semaphore to 1 and starts both threads with `b` true.
abbrev pub init : System
init = record {
  mem = record { sem = 1; index = 0; printed = []; over = false };
  first = head true;
  second = head true;
}

pub data Reach (use_sem : Bool) (text : List ℕ) : System → Type 0 where
  start : Reach use_sem text init
  later : {s t : System} → Reach use_sem text s → Step use_sem text s t → Reach use_sem text t
