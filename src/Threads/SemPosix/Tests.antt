-- ===== src/Threads/SemPosix/Tests.antt =====
-- POSIX/sem_posix_example.c: the theorems along one run.
use linux_system_programming.Prelude.{
  Option, none, ℕ, List, [], ◌∷◌, ◌++◌, replicate, pos, false, ◌≡◌, refl, ◌⊎◌, arith,
}
use linux_system_programming.Sys.{Reply, Line, halt, ret, exited, out_of_fuel}
use linux_system_programming.Threads.Team
use linux_system_programming.Threads.Team.{Team, Runs, play, play-Runs}
use linux_system_programming.Threads.SemPosix.Program.{
  Call, main, thread_t1, thread_t2, Shared, threads, with_true, wait_line, enter_line, leave_line,
}
use linux_system_programming.Threads.SemPosix.Order.{Orderly}
use linux_system_programming.Threads.SemPosix.Stages.{end_line, Complete, rest, joining0}
use linux_system_programming.Threads.SemPosix.Places.{prog1, prog2, unborn, at_wait, at_sleep}
use linux_system_programming.Threads.SemPosix.Progress.{CanMove, Runs-moves}
use linux_system_programming.Threads.SemPosix.Refinement.{process, Runs-Orderly, Runs-Complete}
use linux_system_programming.Threads.SemPosix.{
  started, trying, critical, finished, announce, wait, post, enter, acquire, again, retry, post2,
  System, step1, step2, step3, Reach, begin, later,
}

-- The first thread holds the resource while the third one backs off.
abbrev busy : System
busy = record { mem = record { sem = 0; over = false }; t1 = critical; t2 = started; t3 = trying }

reach_busy : Reach busy
reach_busy =
    let a = later (later begin (step1 refl announce)) (step1 refl (wait (omega arith))) in
    later (later (later a (step3 refl enter)) (step3 refl (again refl))) (step3 refl retry)

abbrev ended : System
ended = record {
  mem = record { sem = 1; over = false };
  t1 = finished;
  t2 = finished;
  t3 = finished;
}

reach_ended : Reach ended
reach_ended =
    let a = later (later reach_busy (step1 refl post)) (step3 refl (acquire (omega arith))) in
    let b = later (later a (step3 refl post2)) (step2 refl announce) in
    later (later b (step2 refl (wait (omega arith)))) (step2 refl post)

-- The whole process: the third thread is first, while the others wait.
abbrev order : List ℕ
order =
    replicate 4 0
    ++ (replicate 3 3
        ++ (replicate 2 1
            ++ (replicate 2 2
                ++ (replicate 4 3 ++ (replicate 6 1 ++ (replicate 6 2 ++ replicate 5 0))))))

abbrev at_start : Team Call Reply Shared
at_start = process 3

abbrev at_end : Team Call Reply Shared
at_end = record {
  threads = halt (exited (pos 0)) ∷ ret tt ∷ ret tt ∷ ret tt ∷ [];
  shared = record {
    sem = 1;
    created = with_true 2 (with_true 1 (with_true 0 (λ _. false)));
    ended = with_true 1 (with_true 0 (with_true 2 (λ _. false)));
  };
  output =
      enter_line 2
      ∷ wait_line 0
      ∷ wait_line 1
      ∷ leave_line 2
      ∷ enter_line 0
      ∷ leave_line 0
      ∷ enter_line 1
      ∷ leave_line 1
      ∷ end_line
      ∷ [];
}

Runs-at_end : Runs threads at_start at_end
unfolding play threads main thread_t1 thread_t2
Runs-at_end = play-Runs threads order at_start at_end Team.begin refl

Runs-Complete_example :
    (exited (pos 0) ≡ out_of_fuel)
    ⊎ ((exited (pos 0) ≡ exited (pos 0))
        × ((o : List Line) × (at_end.output ≡ o ++ (end_line ∷ [])) × Complete o))
Runs-Complete_example = Runs-Complete 3 Runs-at_end refl

going : Team.ended at_start.threads ≡ none
unfolding main thread_t1
going = refl

-- The third thread is inside, and the first one waits.
abbrev at_work : Team Call Reply Shared
at_work = record {
  threads = rest joining0 ∷ prog1 0 at_wait ∷ prog1 1 unborn ∷ prog2 2 3 at_sleep ∷ [];
  shared = record {
    sem = 0;
    created = with_true 2 (with_true 1 (with_true 0 (λ _. false)));
    ended = λ _. false;
  };
  output = enter_line 2 ∷ wait_line 0 ∷ [];
}

Runs-at_work : Runs threads at_start at_work
unfolding play threads main thread_t1 thread_t2
Runs-at_work =
    play-Runs threads (replicate 4 0 ++ (replicate 3 3 ++ replicate 2 1)) at_start at_work
      Team.begin refl

Runs-Orderly_example : (inside : Option ℕ) × (left : List ℕ) × Orderly inside left at_work.output
Runs-Orderly_example = Runs-Orderly 3 Runs-at_work refl

Runs-moves_example : CanMove at_start.threads at_start.shared
Runs-moves_example = Runs-moves 3 Team.begin going
