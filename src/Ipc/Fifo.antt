-- ===== src/Ipc/Fifo.antt =====
-- fifo/write_fifo.c and fifo/read_fifo.c: two processes that take turns over one FIFO.
pub mod Channel
pub mod Round
pub mod Places
pub mod Answers
pub mod Station
pub mod Facts
pub mod Joint
pub mod Front
pub mod Back
pub mod Rests
pub mod Chat
pub mod Laws
pub mod Start
mod Tests
use linux_system_programming.Prelude.{
  ℕ, zero, suc, ℤ, pos, is_zero, is_minus_one, not, List, [], ◌∷◌, ◌++◌, none, some, if◌then◌else◌,
}
use linux_system_programming.Sys.{
  Reply, str, Prog, ret, halt, print, call, ◌>>=◌, ◌>>◌, sys, sys_, printf, eprintf, exit, when,
  undefined, out_of_fuel, out, err,
}
use linux_system_programming.Libc.{c_string, overlay, codes}

-- The FIFO is "/tmp/fifo_test". An open is two calls: the process takes its end, and then waits until
-- some process takes the other one.
pub data Call : Type 0 where
  access : Call
  mkfifo : Call
  fgets : (size : ℕ) → Call  -- from stdin
  take_write_end : Call  -- open (fifofile, O_WRONLY)
  wait_for_reader : Call
  take_read_end : Call  -- open (fifofile, O_RDONLY)
  wait_for_writer : Call
  write : (bytes : List ℕ) → Call
  read : (size : ℕ) → Call
  close_write_end : Call
  close_read_end : Call

-- The part in front of the loops.
unfoldable pub create_fifo : Prog Call Reply (Unit {0})
create_fifo = do
  a ← sys access
  when (not (is_zero a.ret)) do
    m ← sys mkfifo
    when (is_minus_one m.ret) do eprintf "mkfifo error: %m\n"; exit (pos 1)
    printf "FIFO file(%s) create OK.\n" (str (codes "/tmp/fifo_test") ∷ [])

-- `inputbuf` behind fgets; at the end of the input it stays as it is.
unfoldable pub input_message : List ℕ → Prog Call Reply (List ℕ)
input_message inputbuf = do
  printf "input message: " []
  g ← sys (fgets 1024)
  ret (if is_zero g.ret then inputbuf else overlay (g.text ++ (0 ∷ [])) inputbuf)

-- open, write (fd, inputbuf, strlen (inputbuf) + 1), close
unfoldable pub write_message : List ℕ → Prog Call Reply (Unit {0})
write_message inputbuf = do
  sys_ take_write_end
  sys_ wait_for_reader
  elim (c_string inputbuf) [ none ↦ halt undefined | some text ↦ sys_ (write (text ++ (0 ∷ []))) ]
  sys_ close_write_end

-- open, read, close: `readbuf` behind them
unfoldable pub read_message : List ℕ → Prog Call Reply (List ℕ)
read_message readbuf = do
  sys_ take_read_end
  sys_ wait_for_writer
  r ← sys (read 1024)
  sys_ close_read_end
  ret (overlay r.text readbuf)

-- printf ("read: %s", readbuf)
unfoldable pub show_message : List ℕ → Prog Call Reply (Unit {0})
show_message readbuf = elim (c_string readbuf) [
  | none ↦ halt undefined
  | some text ↦ printf "read: %s" (str text ∷ [])
]

-- The two `while (1)`, for a number of rounds, over the two arrays.
unfoldable pub write_rounds : ℕ → List ℕ → List ℕ → Prog Call Reply (Unit {0})
write_rounds zero inputbuf readbuf = halt out_of_fuel
write_rounds (suc fuel) inputbuf readbuf = do
  input ← input_message inputbuf
  write_message input
  received ← read_message readbuf
  show_message received
  write_rounds fuel input received

unfoldable pub read_rounds : ℕ → List ℕ → List ℕ → Prog Call Reply (Unit {0})
read_rounds zero inputbuf readbuf = halt out_of_fuel
read_rounds (suc fuel) inputbuf readbuf = do
  received ← read_message readbuf
  show_message received
  input ← input_message inputbuf
  write_message input
  read_rounds fuel input received

-- `inputbuf` and `readbuf` are what the uninitialised arrays hold.
unfoldable pub write_main : ℕ → List ℕ → List ℕ → Prog Call Reply (Unit {0})
write_main fuel inputbuf readbuf = do create_fifo; write_rounds fuel inputbuf readbuf

unfoldable pub read_main : ℕ → List ℕ → List ℕ → Prog Call Reply (Unit {0})
read_main fuel inputbuf readbuf = do create_fifo; read_rounds fuel inputbuf readbuf
