-- ===== src/Files/RecordLock/Disk.antt =====
-- A kernel for record_lock_test.c: one file, its offset, and whether another process holds a
-- conflicting lock on the record.
use linux_system_programming.Prelude.{
  ℕ, ◌+◌, ◌-◌, ◌^◌, ℤ, pos, negsuc, minus_one, Bool, ◌&&◌, List, [], ◌∷◌, ◌++◌, ◌==◌, ltb,
  if◌then◌else◌, length, take, drop, zeros,
}
use linux_system_programming.Sys.{Reply, Kernel}
use linux_system_programming.Files.RecordLock.{
  Call, open_file, set_lock, lseek, read, write, sleep, close, f_wrlck,
}

pub record Disk : Type 0 where
  pub bytes : List ℕ
  pub offset : ℕ
  pub busy : Bool

abbrev value : ℤ → Reply
value n = record { ret = n; errno = 0; text = [] }

-- Bytes written at an offset: a gap before it is filled with NULs.
abbrev pub put_at : ℕ → List ℕ → List ℕ → List ℕ
put_at i new old = take i old ++ (zeros (i - length old) ++ (new ++ drop (i + length new) old))

-- A write of no bytes has no effect.
abbrev pub store_at : ℕ → List ℕ → List ℕ → List ℕ
store_at i [] old = old
store_at i (x ∷ xs) old = put_at i (x ∷ xs) old

-- SSIZE_MAX: no buffer of the program is that long, so a larger count fails (EFAULT).
abbrev ssize_max : ℕ
ssize_max = 2 ^ 63 - 1

unfoldable pub disk : Kernel Call Reply Disk
disk (open_file path) d = (value (pos 3), record d { offset = 0 })
disk (set_lock type fd start len) d =
    (value (if type == f_wrlck && d.busy then minus_one else pos 0), d)
disk (lseek fd (pos n)) d = (value (pos n), record d { offset = n })
disk (lseek fd (negsuc n)) d = (value minus_one, d)
disk (read fd count) d =
    if ltb ssize_max count
    then (value minus_one, d)
    else let got = take count (drop d.offset d.bytes) in
      (
        record { ret = pos (length got); errno = 0; text = got },
        record d { offset = d.offset + length got },
      )
disk (write fd buf count) d =
    if ltb ssize_max count
    then (value minus_one, d)
    else let sent = take count buf in
      (
        value (pos (length sent)),
        record d { bytes = store_at d.offset sent d.bytes; offset = d.offset + length sent },
      )
disk (sleep n) d = (value (pos 0), d)
disk (close fd) d = (value (pos 0), d)
