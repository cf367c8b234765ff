-- ===== src/Threads/Create/Tests.antt =====
-- pthread_create_example.c: the theorem at the schedule in which the thread counts first.
use linux_system_programming.Prelude.{
  pos, true, false, [], ◌∷◌, none, map, replicate, ◌++◌, ◌≡◌, refl,
}
use linux_system_programming.Sys.{num, out, halt, ret, exited}
use linux_system_programming.Pair.{Pair, Schedule, step, play, play-Schedule}
use linux_system_programming.Threads.Create.{Call, Reply, start_func, main}
use linux_system_programming.Threads.Create.Laws.{upto, number_line, threads, created}

abbrev ended : Pair Call Reply (Unit {0})
ended = record {
  parent = halt (exited (pos 0));
  child = ret tt;
  shared = tt;
  parent_out = out "Thread returned: %d\n" (num (pos 0) ∷ []) ∷ [];
  child_out = map number_line (upto 10 0);
}

Schedule-ended : Schedule threads created 12 ended
unfolding play step threads main start_func
Schedule-ended = play-Schedule threads (replicate 10 false ++ (true ∷ true ∷ [])) created ended refl

stuck : (step threads true ended ≡ none) × (step threads false ended ≡ none)
unfolding step
stuck = (refl, refl)
