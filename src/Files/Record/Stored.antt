-- ===== src/Files/Record/Stored.antt =====
-- A kernel for stdio_example.c: the bytes of "./data.file", and the room on its device.
use linux_system_programming.Prelude.{
  ℕ, ℤ, pos, minus_one, Option, none, some, List, [], ◌∷◌, ◌++◌, leb, if◌then◌else◌, length, take,
}
use linux_system_programming.Sys.{Reply, Kernel}
use linux_system_programming.Files.Record.{Call, fopen_write, fwrite, fopen_read, fread, fclose}

pub record Stored : Type 0 where
  pub file : Option (List ℕ)
  pub room : ℕ
  pub buffer : List ℕ  -- of the stream that is open: written, and not in the file yet

abbrev value : ℤ → Reply
value n = record { ret = n; errno = 0; text = [] }

abbrev opened : Option (List ℕ) → Reply
opened none = value (pos 0)
opened (some _) = value (pos 1)

-- fread gives the whole elements it found.
abbrev found : ℕ → Option (List ℕ) → Reply
found size none = value (pos 0)
found size (some b) =
    if leb size (length b)
    then record { ret = pos 1; errno = 0; text = take size b }
    else value (pos 0)

-- fclose brings what is left in the buffer to the file, if the device has room for it.
abbrev flushed : List ℕ → Stored → Reply × Stored
flushed [] s = (value (pos 0), s)
flushed (b ∷ bs) s =
    if leb (length (b ∷ bs)) s.room
    then (value (pos 0), record s { file = some (b ∷ bs); buffer = [] })
    else (value minus_one, record s { buffer = [] })

-- A struct of 152 bytes stays in the buffer until the stream is closed.
unfoldable pub stored : Kernel Call Reply Stored
stored fopen_write s = (value (pos 1), record s { file = some []; buffer = [] })
stored (fwrite bytes) s = (value (pos 1), record s { buffer = s.buffer ++ bytes })
stored fopen_read s = (opened s.file, record s { buffer = [] })
stored (fread size) s = (found size s.file, s)
stored fclose s = flushed s.buffer s
