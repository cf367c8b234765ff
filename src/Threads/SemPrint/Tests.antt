-- ===== src/Threads/SemPrint/Tests.antt =====
-- SysV/sem_example.c: the theorems at a complete run over the text "a".
use linux_system_programming.Prelude.{
  ℕ, ◌*◌, ◌+◌, ◌≤◌, ◌<◌, true, false, List, [], ◌∷◌, ◌++◌, ◌≡◌, refl, ◌⊎◌, length, take, map, arith,
}
use linux_system_programming.Threads.SemPrint.{
  to_lower, Pc, finished, enter, leave, p_op, at_end, more, load_index, fetch, put, v_op, System,
  Step, step_first, step_second, init, Reach, start, later,
}
use linux_system_programming.Threads.SemPrint.Joined.{Reach-joined}
use linux_system_programming.Threads.SemPrint.Termination.{steps, Reach-terminates}
use linux_system_programming.Threads.SemPrint.Refinement.{Emit, view, Reach-refines}
use linux_system_programming.Threads.SemPrint.Race.{Reach-progress, Reach-race}

abbrev text : List ℕ
text = b'a' ∷ []

-- The first thread is about to take the semaphore.
abbrev at_acquire : System
at_acquire = record init { first = Pc.acquire }

reach_acquire : Reach true text at_acquire
reach_acquire = later start (step_first refl enter)

abbrev at_end_system : System
at_end_system = record {
  mem = record { sem = 1; index = 1; printed = b'a' ∷ []; over = false };
  first = finished;
  second = finished;
}

-- The first thread prints the letter, and both then see the end of the text.
reach_end : Reach true text at_end_system
reach_end =
    let a =
      later (later reach_acquire (step_first refl (p_op refl (omega arith))))
        (step_first refl (more (omega arith))) in
    let b =
      later (later (later a (step_first refl load_index)) (step_first refl (fetch refl)))
        (step_first refl put) in
    let c =
      later (later (later b (step_first refl (v_op refl))) (step_first refl enter))
        (step_first refl (p_op refl (omega arith))) in
    let d =
      later (later (later c (step_first refl (at_end (omega arith)))) (step_first refl (v_op refl)))
        (step_first refl leave) in
    let e = later (later d (step_second refl enter)) (step_second refl (p_op refl (omega arith))) in
    later (later (later e (step_second refl (at_end (omega arith)))) (step_second refl (v_op refl)))
      (step_second refl leave)

-- The second thread prints the letter and finishes before the first one has begun.
abbrev at_join : System
at_join = record {
  mem = record { sem = 1; index = 1; printed = b'A' ∷ []; over = false };
  first = Pc.head true;
  second = finished;
}

reach_join : Reach true text at_join
reach_join =
    let a =
      later
        (later (later start (step_second refl enter)) (step_second refl (p_op refl (omega arith))))
        (step_second refl (more (omega arith))) in
    let b =
      later (later (later a (step_second refl load_index)) (step_second refl (fetch refl)))
        (step_second refl put) in
    let c =
      later (later (later b (step_second refl (v_op refl))) (step_second refl enter))
        (step_second refl (p_op refl (omega arith))) in
    later (later (later c (step_second refl (at_end (omega arith)))) (step_second refl (v_op refl)))
      (step_second refl leave)

Reach-joined_example : map to_lower at_join.mem.printed ≡ map to_lower text
Reach-joined_example = Reach-joined reach_join refl

Reach-progress_example :
    ((at_acquire.first ≡ finished) × (at_acquire.second ≡ finished))
    ⊎ ((t : System) × Step true text at_acquire t × (t.mem.over ≡ false))
Reach-progress_example = Reach-progress reach_acquire refl

Reach-race_example :
    (s : System) × Reach false text s
    × (length text < s.mem.index)
    × (s.mem.printed ≡ map to_lower (take 0 text) ++ (0 ∷ []))
Reach-race_example = Reach-race text 0 refl

Reach-terminates_example : steps reach_end ≤ 9 * length text + 13
Reach-terminates_example = Reach-terminates reach_end

Reach-refines_example :
    (view text init ≡ record { typed = []; left = map to_lower text })
    × ((view text at_acquire ≡ view text init) ⊎ Emit (view text init) (view text at_acquire))
Reach-refines_example = Reach-refines {text = text} start (step_first refl enter)
