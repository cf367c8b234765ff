-- ===== src/Ipc/Shm/Tests.antt =====
-- The shared memory programs: the theorems at concrete memories.
use linux_system_programming.Prelude.{
  ℕ, replicate, length-replicate, pos, false, [], ◌∷◌, none, some, ◌≡◌, refl, arith,
}
use linux_system_programming.Sys.{str, out, halted, exited, run}
use linux_system_programming.Ipc.Shm.{posix_write, posix_read, sysv_write, sysv_read}
use linux_system_programming.Ipc.Shm.Memory.{Memory, line, shm}
use linux_system_programming.Ipc.Shm.Laws.{posix_read-posix_write, sysv_read-sysv_write}

-- "a", a newline, "b"
abbrev no_memory : Memory
no_memory = record { object = none; input = b'a' ∷ 10 ∷ b'b' ∷ []; refuse = false; fault = false }

abbrev old_memory : Memory
old_memory = record {
  object = some (replicate 2000 b'z');
  input = b'a' ∷ 10 ∷ b'b' ∷ [];
  refuse = false;
  fault = false;
}

line_run : line 1023 no_memory.input ≡ b'a' ∷ 10 ∷ []
unfolding line
line_run = refl

posix_read-posix_write_example :
    let w = run shm posix_write no_memory in
    let r = run shm posix_read w.state in
    (w.result ≡ halted (exited (pos 0)))
    × (w.lines
        ≡ out "Input data: " []
          ∷ out "Written data: %s\n" (str (line 1023 no_memory.input) ∷ [])
          ∷ [])
    × (r.result ≡ halted (exited (pos 0)))
    × (r.lines ≡ out "data: %s" (str (line 1023 no_memory.input) ∷ []) ∷ [])
    × (r.state.object ≡ none)
posix_read-posix_write_example =
    posix_read-posix_write b'a' (10 ∷ b'b' ∷ []) none
      (omega arith, (omega arith, (omega arith, tt)))

sysv_read-sysv_write_example :
    let w = run shm sysv_write old_memory in
    let r = run shm sysv_read w.state in
    (w.result ≡ halted (exited (pos 0)))
    × (w.lines
        ≡ out "input data: " []
          ∷ out "Written data: %s\n" (str (line 1023 old_memory.input) ∷ [])
          ∷ [])
    × (r.result ≡ halted (exited (pos 0)))
    × (r.lines ≡ out "read data: %s\n" (str (line 1023 old_memory.input) ∷ []) ∷ [])
    × (r.state.object ≡ none)
sysv_read-sysv_write_example =
    sysv_read-sysv_write b'a' (10 ∷ b'b' ∷ []) (some (replicate 2000 b'z'))
      (omega arith, (omega arith, (omega arith, tt)))
      (omega (arith, length-replicate {A = ℕ} 2000 b'z'))
