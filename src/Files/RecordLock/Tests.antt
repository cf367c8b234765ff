-- ===== src/Files/RecordLock/Tests.antt =====
-- record_lock_test.c: the theorems at concrete files, and runs.
use linux_system_programming.Prelude.{
  ℕ, zero, suc, pos, false, List, [], ◌∷◌, some, ◌≡◌, refl, arith, replicate,
}
use linux_system_programming.Sys.{run, halted, exited, undefined}
use linux_system_programming.Libc.{atoi, c_string, IsText}
use linux_system_programming.Files.RecordLock.{
  open_file, set_lock, lseek, read, write, sleep, close, main, f_wrlck, f_unlck, process, modify,
  record_lock, lock_type,
}
use linux_system_programming.Files.RecordLock.Disk.{Disk, disk, store_at}
use linux_system_programming.Files.RecordLock.Laws.{
  main-disk, main-unterminated, main-within, main-grows,
}
use linux_system_programming.Files.RecordLock.Masked.{loaded, written, changed}

abbrev name : List ℕ
name = b'p' ∷ []

abbrev path : List ℕ
path = b't' ∷ []

abbrev two : List ℕ
two = b'2' ∷ []

abbrev three : List ℕ
three = b'3' ∷ []

-- "ab09c"
abbrev free_disk : Disk
free_disk = record { bytes = b'a' ∷ b'b' ∷ b'0' ∷ b'9' ∷ b'c' ∷ []; offset = 0; busy = false }

-- "ab09"
abbrev short_disk : Disk
short_disk = record { bytes = b'a' ∷ b'b' ∷ b'0' ∷ b'9' ∷ []; offset = 0; busy = false }

abbrev long_disk : Disk
long_disk = record { bytes = replicate 1026 b'z'; offset = 0; busy = false }

atoi-two : atoi two ≡ pos 2
unfolding atoi
atoi-two = refl

atoi-three : atoi three ≡ pos 3
unfolding atoi
atoi-three = refl

main-run :
    (run disk (main (name ∷ path ∷ two ∷ three ∷ [])) free_disk).state.bytes
    ≡ b'a' ∷ b'b' ∷ b'x' ∷ b'x' ∷ b'c' ∷ []
unfolding main process disk atoi c_string modify record_lock lock_type
main-run = refl

shown_free : c_string (loaded 2 3 free_disk.bytes) ≡ some (b'0' ∷ b'9' ∷ b'c' ∷ [])
unfolding c_string
shown_free = refl

shown_short : c_string (loaded 2 3 short_disk.bytes) ≡ some (b'0' ∷ b'9' ∷ [])
unfolding c_string
shown_short = refl

main-disk_example :
    let r = run disk (main (name ∷ path ∷ two ∷ three ∷ [])) free_disk in
    (r.result ≡ halted (exited (pos 0)))
    × (r.state.bytes ≡ store_at 2 (written 2 3 free_disk.bytes) free_disk.bytes)
    × (r.calls
        ≡ open_file path
          ∷ set_lock f_wrlck (pos 3) (pos 2) (pos 3)
          ∷ lseek (pos 3) (pos 2)
          ∷ read (pos 3) 3
          ∷ lseek (pos 3) (pos 2)
          ∷ write (pos 3) (changed 2 3 free_disk.bytes) 3
          ∷ sleep 20
          ∷ set_lock f_unlck (pos 3) (pos 2) (pos 3)
          ∷ close (pos 3)
          ∷ [])
main-disk_example =
    main-disk name path two three [] 2 3 free_disk atoi-two atoi-three (omega arith) refl shown_free

main-within_example :
    (run disk (main (name ∷ path ∷ two ∷ three ∷ [])) free_disk).state.bytes
    ≡ b'a' ∷ b'b' ∷ b'x' ∷ b'x' ∷ b'c' ∷ []
main-within_example =
    main-within name path two three [] 2 3 free_disk atoi-two atoi-three (omega arith) refl
      shown_free (omega arith)

-- Three bytes asked for at offset 2 of a file of four: a NUL is appended.
main-grows_example :
    (run disk (main (name ∷ path ∷ two ∷ three ∷ [])) short_disk).state.bytes
    ≡ b'a' ∷ b'b' ∷ b'x' ∷ b'x' ∷ 0 ∷ []
main-grows_example =
    main-grows name path two three [] 2 3 short_disk atoi-two atoi-three (omega arith) refl
      shown_short (omega arith) (omega arith)

abbrev kilobyte : List ℕ
kilobyte = b'1' ∷ b'0' ∷ b'2' ∷ b'4' ∷ []

atoi-kilobyte : atoi kilobyte ≡ pos 1024
unfolding atoi
atoi-kilobyte = refl

IsText-replicate : (n : ℕ) → IsText (replicate n b'z')
IsText-replicate zero = tt
IsText-replicate (suc n) = (omega arith, IsText-replicate n)

main-unterminated_example :
    (run disk (main (name ∷ path ∷ two ∷ kilobyte ∷ [])) long_disk).result ≡ halted undefined
main-unterminated_example =
    main-unterminated name path two kilobyte [] 2 1024 long_disk atoi-two atoi-kilobyte refl
      (omega arith) (IsText-replicate 1024)
