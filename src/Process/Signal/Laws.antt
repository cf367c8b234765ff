-- ===== src/Process/Signal/Laws.antt =====
-- signal_example.c: which handlers run, and where in the output.
use linux_system_programming.Prelude.{
  ℕ, zero, suc, pos, Bool, true, false, List, [], ◌∷◌, ◌++◌, ◌≡◌, ◌==◌, refl, arith,
}
use linux_system_programming.Sys.{Line, num, out, halted, exited, run}
use linux_system_programming.Process.Signal.{main, handle, enter, basic_handler, advanced_handler}
use linux_system_programming.Process.Signal.Delivery.{Process, process}

abbrev pub caught : Line
caught = out "[Handler] SIGINT(Ctrl+C)\n" []

-- The lines before a delivery behind the block, and those from the raise on.
abbrev pub opening : ℕ → List Line
opening pid =
    out "PID: %d - start.\n" (num (pos pid) ∷ [])
    ∷ out "1. SIGINT has a handler, SIGTSTP is ignored.\n" []
    ∷ out "2. SIGINT is blocked for 5 seconds.\n" []
    ∷ out "3. SIGINT is unblocked.\n" []
    ∷ []

abbrev pub closing : ℕ → List Line
closing pid =
    out "5. sigqueue () sends SIGUSR1 with a value.\n" []
    ∷ out "[Advanced Handler] signal: %d\n" (num (pos 10) ∷ [])
    ∷ out "sender's PID: %d\n" (num (pos pid) ∷ [])
    ∷ out "value: %d\n" (num (pos 2024) ∷ [])
    ∷ out "6. The program ends.\n" []
    ∷ []

abbrev pub raising : Line
raising = out "4. raise () sends SIGINT.\n" []

-- The program starts with no handler registered. However often Ctrl+C is pressed while SIGINT is
-- blocked, its handler runs at most once for that, and only behind the end of the block; it runs
-- once more for the raise; SIGUSR1 brings 2024 and the process's own id, and is not taken for a
-- user's kill. If SIGINT was blocked when the program started, it stays so, is left pending, and
-- its handler never runs.
pub main-lines :
    (pid presses : ℕ)
    → let start : Bool → ℕ → Process = λ blocked n. record {
      pid = pid;
      catches_int = false;
      catches_usr1 = false;
      blocked = blocked;
      pending = false;
      presses = n;
    } in
      let quiet = run process main (start false 0) in
      let pressed = run process main (start false (suc presses)) in
      let inherited = run process main (start true presses) in
      (quiet.lines ≡ opening pid ++ (raising ∷ caught ∷ closing pid))
      × (pressed.lines ≡ opening pid ++ (caught ∷ raising ∷ caught ∷ closing pid))
      × (pressed.result ≡ halted (exited (pos 0)))
      × (pressed.state.pending ≡ false)
      × (inherited.lines ≡ opening pid ++ (raising ∷ closing pid))
      × (inherited.result ≡ halted (exited (pos 0)))
      × (inherited.state.pending ≡ true)
unfolding main handle enter basic_handler advanced_handler process
main-lines pid zero =
    let e : pid == pid ≡ true = ground arith in rw e (refl, refl, refl, refl, refl, refl, refl)
main-lines pid (suc presses) =
    let e : pid == pid ≡ true = ground arith in rw e (refl, refl, refl, refl, refl, refl, refl)
