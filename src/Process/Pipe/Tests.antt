-- ===== src/Process/Pipe/Tests.antt =====
-- pipe_example.c: the theorem at the schedule in which the child runs while the parent waits.
use linux_system_programming.Prelude.{List, true, false, none, Bool, pos, [], ◌∷◌, ◌≡◌, refl}
use linux_system_programming.Sys.{halt, str, out, exited}
use linux_system_programming.Pair.{Pair, Schedule, step, play, play-Schedule, texts}
use linux_system_programming.Process.Pipe.Both.{
  Pipes, pipes, forked, question, reply, Schedule-delivers,
}
use linux_system_programming.Libc.{c_string, codes}
use linux_system_programming.Process.Pipe.{Call, Reply, parent, child, main}

-- The parent asks and waits, the child answers and exits, the parent reads.
abbrev turns : List Bool
turns =
    true ∷ true ∷ true ∷ false ∷ false ∷ false ∷ false ∷ false ∷ false ∷ false ∷ true ∷ true ∷ true
    ∷ true ∷ true ∷ []

abbrev ended : Pair Call Reply Pipes
ended = record {
  parent = halt (exited (pos 0));
  child = halt (exited (pos 0));
  shared = record {
    first = [];
    second = [];
    closed_by_parent = 5 ∷ 6 ∷ 4 ∷ 3 ∷ [];
    closed_by_child = 6 ∷ 5 ∷ 3 ∷ 4 ∷ [];
  };
  parent_out = out "[Parent] read from Child: %s\n" (str (codes "OK!") ∷ []) ∷ [];
  child_out = out "[Child] read from Parent: %s\n" (str (codes "Did you understand?") ∷ []) ∷ [];
}

Schedule-ended : Schedule pipes forked 15 ended
unfolding play step pipes main parent child c_string
Schedule-ended = play-Schedule pipes turns forked ended refl

stuck : (step pipes true ended ≡ none) × (step pipes false ended ≡ none)
unfolding step
stuck = (refl, refl)

Schedule-delivers_example :
    (ended.parent ≡ halt (exited (pos 0)))
    × (ended.child ≡ halt (exited (pos 0)))
    × (texts ended.child_out ≡ question ∷ [])
    × (texts ended.parent_out ≡ reply ∷ [])
Schedule-delivers_example = Schedule-delivers Schedule-ended stuck.0 stuck.1
