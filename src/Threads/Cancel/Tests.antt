-- ===== src/Threads/Cancel/Tests.antt =====
-- pthread_cancel_example.c: the theorem at a schedule in which main wakes first in the fifth second.
use linux_system_programming.Prelude.{
  ◌≤◌, pos, Bool, true, false, List, [], ◌∷◌, ◌++◌, none, some, length, replicate, ◌≡◌, refl,
}
use linux_system_programming.Sys.{out, Prog, ◌>>◌, sys_, printf, halt, exited}
use linux_system_programming.Pair.{Pair, Schedule, step, play, play-Schedule}
use linux_system_programming.Sys.{Reply}
use linux_system_programming.Threads.Cancel.{Call, wake, keep_on, start_func, main}
use linux_system_programming.Threads.Cancel.Timed.{Timed, timed}
use linux_system_programming.Threads.Cancel.Laws.{created, Schedule-cancels}

abbrev asleep : Prog Call Reply (Unit {0})
asleep = do sys_ wake; printf "start_func() continue!\n" []; keep_on 1

abbrev at_end : Pair Call Reply Timed
at_end = record {
  parent = halt (exited (pos 0));
  child = asleep;
  shared = record { now = 5; main_until = none; thread_until = some 5; cancelled = true };
  parent_out = out "Thread canceled\n" [] ∷ [];
  child_out =
      out "start_func() just wait... \n" [] ∷ replicate 4 (out "start_func() continue!\n" []);
}

abbrev order : List Bool
order =
    true ∷ false ∷ false ∷ (false ∷ false ∷ false ∷ [])
    ++ (false ∷ false ∷ false ∷ [])
    ++ (false ∷ false ∷ false ∷ [])
    ++ (false ∷ false ∷ false ∷ [])
    ++ (true ∷ true ∷ true ∷ [])

Schedule-canceled : Schedule timed (created 0) 18 at_end
unfolding play step timed main start_func keep_on
Schedule-canceled = play-Schedule timed order (created 0) at_end refl

rests : (step timed true at_end ≡ none) × (step timed false at_end ≡ none)
unfolding step timed
rests = (refl, refl)

Schedule-cancels_example :
    (18 ≤ 21)
    × (step timed true at_end ≡ none
        → step timed false at_end ≡ none
        → (at_end.parent ≡ halt (exited (pos 0)))
          × (at_end.shared.cancelled ≡ true)
          × (at_end.shared.now ≡ 5)
          × (5 ≤ length at_end.child_out)
          × (length at_end.child_out ≤ 6))
Schedule-cancels_example = Schedule-cancels 0 Schedule-canceled
