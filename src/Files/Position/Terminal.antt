-- ===== src/Files/Position/Terminal.antt =====
-- A kernel for stdio_example3.c: the file, the clock, and a line-buffered terminal.
use linux_system_programming.Prelude.{
  ℕ, ◌+◌, ℤ, pos, List, [], ◌∷◌, ◌++◌, map, if◌then◌else◌, length, take, drop,
}
use linux_system_programming.Sys.{Reply, Kernel, Line}
use linux_system_programming.Libc.{overlay}
use linux_system_programming.Files.Position.{
  Call, fopen, fprintf, ftell, rewind, fclose, put, fflush, sleep,
}

-- `shown` holds what the terminal shows, each piece with the second in which it appeared.
pub record Terminal : Type 0 where
  pub file : List ℕ
  pub offset : ℕ
  pub clock : ℕ
  pub buffer : List Line
  pub shown : List (ℕ × Line)

abbrev value : ℤ → Reply
value n = record { ret = n; errno = 0; text = [] }

abbrev pub flushed : Terminal → Terminal
flushed t = record t { buffer = []; shown = t.shown ++ map (λ l. (t.clock, l)) t.buffer }

abbrev added : Line → Terminal → Terminal
added l t = record t { buffer = t.buffer ++ (l ∷ []) }

unfoldable pub terminal : Kernel Call Reply Terminal
terminal fopen t = (value (pos 1), record t { file = []; offset = 0 })
terminal (fprintf text) t = (
  value (pos (length text)),
  record t {
    file = take t.offset t.file ++ overlay text (drop t.offset t.file);
    offset = t.offset + length text;
  },
)
terminal ftell t = (value (pos t.offset), t)
terminal rewind t = (value (pos 0), record t { offset = 0 })
terminal fclose t = (value (pos 0), t)
terminal (put l newline) t = (value (pos 1), if newline then flushed (added l t) else added l t)
terminal fflush t = (value (pos 0), flushed t)
terminal (sleep n) t = (value (pos 0), record t { clock = t.clock + n })
