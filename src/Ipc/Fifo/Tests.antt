-- ===== src/Ipc/Fifo/Tests.antt =====
-- Concrete chats over the FIFO.
use linux_system_programming.Ipc.Fifo.Start.{starting, Started, Schedule-creates}
use linux_system_programming.Libc.{codes, c_string}
use linux_system_programming.Sys.{out, err, str, ret, halt, exited, out_of_fuel}
use linux_system_programming.Prelude.{pos, true, false, refl, [], ◌∷◌, none, ◌≡◌, ◌≤◌, arith}
use linux_system_programming.Sys.{Reply}
use linux_system_programming.Pair.{Pair, Schedule, texts, play, step, play-Schedule}
use linux_system_programming.Ipc.Fifo.{
  Call, create_fifo, write_rounds, read_rounds, input_message, write_message, read_message,
  show_message,
}
use linux_system_programming.Ipc.Fifo.Channel.{Channel, channel}
use linux_system_programming.Ipc.Fifo.Round.{IsLine, round, between, prompt, shown}
use linux_system_programming.Ipc.Fifo.Chat.{
  talking, IsPrefix, Finished, Schedule-prefixes, Schedule-Finished,
}

abbrev is_a : IsLine (b'a' ∷ [])
is_a = ((omega arith, tt), omega arith)

abbrev is_bc : IsLine (b'b' ∷ b'c' ∷ [])
is_bc = ((omega arith, (omega arith, tt)), omega arith)

-- One round, to its end.
abbrev at_end : Pair Call Reply Channel
at_end = record {
  parent = halt out_of_fuel;
  child = halt out_of_fuel;
  shared = between [] [] true true;
  parent_out = prompt ∷ shown (b'b' ∷ b'c' ∷ []) ∷ [];
  child_out = shown (b'a' ∷ []) ∷ prompt ∷ [];
}

Schedule-end :
    Schedule channel (talking ((b'a' ∷ []) ∷ []) ((b'b' ∷ b'c' ∷ []) ∷ []) [] [] [] []) 22 at_end
unfolding play step channel write_rounds read_rounds input_message write_message read_message
    show_message c_string
Schedule-end =
    play-Schedule channel round (talking ((b'a' ∷ []) ∷ []) ((b'b' ∷ b'c' ∷ []) ∷ []) [] [] [] [])
      at_end refl

ends : (step channel true at_end ≡ none) × (step channel false at_end ≡ none)
unfolding step
ends = (refl, refl)

Schedule-prefixes_example :
    IsPrefix (texts at_end.parent_out) ((b'b' ∷ b'c' ∷ []) ∷ [])
    × IsPrefix (texts at_end.child_out) ((b'a' ∷ []) ∷ [])
Schedule-prefixes_example =
    Schedule-prefixes ((b'a' ∷ []) ∷ []) ((b'b' ∷ b'c' ∷ []) ∷ []) [] [] [] [] refl (is_a, tt)
      (is_bc, tt) Schedule-end

Schedule-Finished_example :
    (22 ≤ 22)
    × (step channel true at_end ≡ none
        → step channel false at_end ≡ none
        → Finished ((b'a' ∷ []) ∷ []) ((b'b' ∷ b'c' ∷ []) ∷ []) at_end)
Schedule-Finished_example =
    Schedule-Finished ((b'a' ∷ []) ∷ []) ((b'b' ∷ b'c' ∷ []) ∷ []) [] [] [] [] refl (is_a, tt)
      (is_bc, tt) Schedule-end

abbrev null : Reply
null = record { ret = pos 0; errno = 0; text = [] }

-- Both find the FIFO missing, and the writer makes it.
abbrev at_race : Pair Call Reply Channel
at_race = record {
  parent = ret tt;
  child = halt (exited (pos 1));
  shared = between [] [] false false;
  parent_out = out "FIFO file(%s) create OK.\n" (str (codes "/tmp/fifo_test") ∷ []) ∷ [];
  child_out = err "mkfifo error: %m\n" ∷ [];
}

Schedule-raced : Schedule channel (starting false) 6 at_race
unfolding play step channel create_fifo
Schedule-raced =
    play-Schedule channel (true ∷ false ∷ true ∷ false ∷ true ∷ false ∷ []) (starting false) at_race
      refl

rests : (step channel true at_race ≡ none) × (step channel false at_race ≡ none)
unfolding step
rests = (refl, refl)

Schedule-creates_example : Started false at_race
Schedule-creates_example = Schedule-creates false Schedule-raced rests.0 rests.1
