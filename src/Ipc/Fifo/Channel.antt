-- ===== src/Ipc/Fifo/Channel.antt =====
-- A kernel for the FIFO programs: the writer is the pair's parent, the reader its child.
use linux_system_programming.Prelude.{
  ℕ, ℤ, pos, minus_one, Bool, true, false, ◌||◌, List, [], ◌∷◌, ◌++◌, Option, none, some,
  if◌then◌else◌, take, drop, leb, length,
}
use linux_system_programming.Sys.{Reply}
use linux_system_programming.Pair.{Shared}
use linux_system_programming.Ipc.Fifo.{
  Call, access, mkfifo, fgets, take_write_end, wait_for_reader, take_read_end, wait_for_writer,
  write, read, close_write_end, close_read_end,
}

-- Whether the FIFO exists, and what was written and not read; for the writer and for the reader, which
-- ends it has, whether it has met the other side since it took one, and the lines its user will type.
pub record Channel : Type 0 where
  pub exists : Bool
  pub bytes : Option (List ℕ)
  pub w_writes : Bool
  pub w_reads : Bool
  pub w_met : Bool
  pub w_typed : List (List ℕ)
  pub r_writes : Bool
  pub r_reads : Bool
  pub r_met : Bool
  pub r_typed : List (List ℕ)

abbrev value : ℤ → Reply
value n = record { ret = n; errno = 0; text = [] }

abbrev done : Channel → Option (Reply × Channel)
done c = some (value (pos 1), c)

abbrev filled : Option (List ℕ) → List ℕ → List ℕ
filled none new = new
filled (some old) new = old ++ new

-- A read of an empty FIFO waits while the other process has the write end, and else brings nothing.
abbrev read_bytes : Bool → ℕ → Channel → Option (List ℕ) → Option (Reply × Channel)
read_bytes other_writes size c none = if other_writes then none else some (value (pos 0), c)
read_bytes other_writes size c (some b) = some (
  record { ret = pos 1; errno = 0; text = take size b },
  record c { bytes = if leb (length b) size then none else some (drop size b) },
)

-- A line that the user types; at the end of the input fgets gives a null pointer.
abbrev w_line : Channel → List (List ℕ) → Reply × Channel
w_line c [] = (value (pos 0), c)
w_line c (t ∷ ts) = (record { ret = pos 1; errno = 0; text = t }, record c { w_typed = ts })

abbrev r_line : Channel → List (List ℕ) → Reply × Channel
r_line c [] = (value (pos 0), c)
r_line c (t ∷ ts) = (record { ret = pos 1; errno = 0; text = t }, record c { r_typed = ts })

-- A write fails where nobody reads.
abbrev write_bytes : Bool → List ℕ → Channel → Option (Reply × Channel)
write_bytes other_reads b c =
    if other_reads
    then done (record c { bytes = some (filled c.bytes b) })
    else some (value minus_one, c)

-- A process that takes an end meets the other one if that has the other end, and is met by it.
unfoldable pub channel : Shared Call Reply Channel
channel who other access c = some (if c.exists then value (pos 0) else value minus_one, c)
channel who other mkfifo c =
    some (if c.exists then value minus_one else value (pos 0), record c { exists = true })
channel true other (fgets size) c = some (w_line c c.w_typed)
channel false other (fgets size) c = some (r_line c c.r_typed)
channel true other take_write_end c =
    done (record c { w_writes = true; w_met = c.r_reads; r_met = c.r_reads || c.r_met })
channel false other take_write_end c =
    done (record c { r_writes = true; r_met = c.w_reads; w_met = c.w_reads || c.w_met })
channel true other take_read_end c =
    done (record c { w_reads = true; w_met = c.r_writes; r_met = c.r_writes || c.r_met })
channel false other take_read_end c =
    done (record c { r_reads = true; r_met = c.w_writes; w_met = c.w_writes || c.w_met })
channel true other wait_for_reader c = if c.w_met then done c else none
channel false other wait_for_reader c = if c.r_met then done c else none
channel true other wait_for_writer c = if c.w_met then done c else none
channel false other wait_for_writer c = if c.r_met then done c else none
channel true other (write b) c = write_bytes c.r_reads b c
channel false other (write b) c = write_bytes c.w_reads b c
channel true other (read size) c = read_bytes c.r_writes size c c.bytes
channel false other (read size) c = read_bytes c.w_writes size c c.bytes
channel true other close_write_end c = done (record c { w_writes = false })
channel false other close_write_end c = done (record c { r_writes = false })
channel true other close_read_end c = done (record c { w_reads = false })
channel false other close_read_end c = done (record c { r_reads = false })
