-- ===== src/Ipc/Fifo/Places.antt =====
-- The FIFO programs: the places of a process, sending a line and getting the other one's.
use linux_system_programming.Prelude.{
  ℕ, is_zero, Bool, true, false, List, [], ◌∷◌, ◌++◌, if◌then◌else◌, ◌≡◌, refl,
}
use linux_system_programming.Sys.{Prog, print, ◌>>=◌, ◌>>◌, sys, sys_, Reply}
use linux_system_programming.Libc.{overlay}
use linux_system_programming.Ipc.Fifo.{
  Call, fgets, take_write_end, wait_for_reader, wait_for_writer, write, read, close_write_end,
  close_read_end, input_message, write_message, read_message, show_message, write_rounds,
  read_rounds,
}
use linux_system_programming.Ipc.Fifo.Round.{IsLine, c_string-holding, holding, shown}

abbrev pub Process : Type 0
Process = Prog Call Reply (Unit {0})

-- The part that gets a line into the array `r`, and the part that sends one; `k` is what follows.
module _ (k : List ℕ → Process) where
  abbrev pub from_entering : List ℕ → Process
  from_entering r = do received ← read_message r; show_message received; k received

  abbrev pub from_reading : List ℕ → Process
  from_reading r = do
    x ← sys (read 1024)
    sys_ close_read_end
    show_message (overlay x.text r)
    k (overlay x.text r)

  abbrev pub from_waiting : List ℕ → Process
  from_waiting r = do sys_ wait_for_writer; from_reading r

  abbrev pub from_showing : List ℕ → List ℕ → Process
  from_showing t r = print (shown t) (k r)

  abbrev pub from_closing : List ℕ → List ℕ → Process
  from_closing t r = do sys_ close_read_end; from_showing t r

  abbrev pub from_prompting : List ℕ → Process
  from_prompting i = do input ← input_message i; write_message input; k input

  abbrev pub from_typing : List ℕ → Process
  from_typing i = do
    g ← sys (fgets 1024)
    let input = if is_zero g.ret then i else overlay (g.text ++ (0 ∷ [])) i
    write_message input
    k input

  abbrev pub from_leaving : List ℕ → Process
  from_leaving i = do sys_ close_write_end; k i

  abbrev pub from_writing : List ℕ → List ℕ → Process
  from_writing t i = do sys_ (write (t ++ (0 ∷ []))); from_leaving i

  abbrev pub from_opened : List ℕ → List ℕ → Process
  from_opened t i = do sys_ wait_for_reader; from_writing t i

  abbrev pub from_taking : List ℕ → List ℕ → Process
  from_taking t i = do sys_ take_write_end; from_opened t i

-- What the writer does behind the parts of a round, and the reader; `n` rounds follow.
abbrev pub received : Bool → ℕ → List ℕ → List ℕ → Process
received true n i = λ r. write_rounds n i r
received false n i = λ r. from_prompting (λ i'. read_rounds n i' r) i

abbrev pub sent : Bool → ℕ → List ℕ → List ℕ → Process
sent true n r = λ i. from_entering (λ r'. write_rounds n i r') r
sent false n r = λ i. read_rounds n i r

-- The parts of a round with a line in the array.
pub write_message-line :
    (k : List ℕ → Process) (t i : List ℕ)
    → IsLine t
    → (write_message (holding t i) >> k (holding t i)) ≡ from_taking k t (holding t i)
unfolding write_message
write_message-line k t i h = rw (c_string-holding t i h) refl

pub show_message-line :
    (k : List ℕ → Process) (t r : List ℕ)
    → IsLine t
    → (show_message (holding t r) >> k (holding t r)) ≡ from_showing k t (holding t r)
unfolding show_message
show_message-line k t r h = rw (c_string-holding t r h, show_message) refl
