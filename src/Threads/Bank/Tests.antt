-- ===== src/Threads/Bank/Tests.antt =====
-- pthread_example.c: the theorems at the program's own amounts.
use linux_system_programming.Prelude.{
  none, ℕ, ℤ, List, [], ◌∷◌, ◌++◌, replicate, ◌⊎◌, ◌+◌, ◌≤◌, pos, ◌-ℤ◌, true, false, ◌≡◌, refl,
}
use linux_system_programming.Sys.{halt, ret, exited}
use linux_system_programming.Threads.Team
use linux_system_programming.Threads.Team.{Team, Runs, play, play-Runs}
use linux_system_programming.Threads.Bank.Program.{
  Call, main, withdrawal, Memory, threads, with_true,
}
use linux_system_programming.Threads.Bank.Places.{withdraw_line, finish_line}
use linux_system_programming.Threads.Bank.Stages.{opening, closing}
use linux_system_programming.Threads.Bank.Refinement.{process, Runs-tells}
use linux_system_programming.Threads.Bank.Progress.{CanMove, Runs-progress}
use linux_system_programming.Threads.Bank.{
  Pc, locked, finished, lock, read, subtract, unlock, System, step1, step2, Reach, begin, later,
}
use linux_system_programming.Threads.Bank.Laws.{holds, taken, Reach-balance}

-- The first thread is inside and has not read the balance.
abbrev inside : System
inside = record {
  mem = record { mutex = true; total_money = pos 1000 };
  thread1 = locked;
  thread2 = Pc.start;
}

reach_inside : Reach (pos 1000) (pos 100) (pos 200) inside
reach_inside = later begin (step1 (lock refl))

abbrev ended : System
ended = record {
  mem = record { mutex = false; total_money = pos 700 };
  thread1 = finished;
  thread2 = finished;
}

-- The second thread goes first.
reach_ended : Reach (pos 1000) (pos 100) (pos 200) ended
unfolding ◌-ℤ◌
reach_ended =
    let a = later (later begin (step2 (lock refl))) (step2 read) in
    let b = later (later (later a (step2 subtract)) (step2 unlock)) (step1 (lock refl)) in
    later (later (later b (step1 read)) (step1 subtract)) (step1 unlock)

Reach-balance_example :
    (holds inside.thread1 + holds inside.thread2 ≤ 1)
    × (pos 1000 ≡ pos 1000 -ℤ taken (pos 100) inside.thread1 -ℤ taken (pos 200) inside.thread2)
Reach-balance_example = Reach-balance reach_inside

-- The whole process, the second thread first.
abbrev order : List ℕ
order = replicate 5 0 ++ (replicate 9 2 ++ (replicate 9 1 ++ replicate 4 0))

abbrev at_end : Team Call ℤ Memory
at_end = record {
  threads = halt (exited (pos 0)) ∷ ret tt ∷ ret tt ∷ [];
  shared = record {
    mutex = false;
    total_money = pos 700;
    created = with_true true (with_true false (λ _. false));
    ended = with_true false (with_true true (λ _. false));
  };
  output =
      opening (pos 1000)
      ∷ withdraw_line (pos 200)
      ∷ finish_line (pos 200)
      ∷ withdraw_line (pos 100)
      ∷ finish_line (pos 100)
      ∷ closing (pos 700)
      ∷ [];
}

abbrev started : Team Call ℤ Memory
started = process (pos 1000) (pos 100) (pos 200)

Runs-at_end : Runs threads started at_end
unfolding play threads main withdrawal ◌-ℤ◌
Runs-at_end = play-Runs threads order started at_end Team.begin refl

Runs-tells_example :
    (exited (pos 0) ≡ exited (pos 0))
    × ((at_end.output
          ≡ opening (pos 1000)
            ∷ withdraw_line (pos 100)
            ∷ finish_line (pos 100)
            ∷ withdraw_line (pos 200)
            ∷ finish_line (pos 200)
            ∷ closing (pos 1000 -ℤ pos 100 -ℤ pos 200)
            ∷ [])
        ⊎ (at_end.output
            ≡ opening (pos 1000)
              ∷ withdraw_line (pos 200)
              ∷ finish_line (pos 200)
              ∷ withdraw_line (pos 100)
              ∷ finish_line (pos 100)
              ∷ closing (pos 1000 -ℤ pos 100 -ℤ pos 200)
              ∷ []))
Runs-tells_example = Runs-tells (pos 1000) (pos 100) (pos 200) Runs-at_end refl

going : Team.ended started.threads ≡ none
unfolding main withdrawal
going = refl

Runs-progress_example : CanMove started.threads started.shared
Runs-progress_example = Runs-progress (pos 1000) (pos 100) (pos 200) Team.begin going
