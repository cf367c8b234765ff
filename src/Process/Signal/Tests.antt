-- ===== src/Process/Signal/Tests.antt =====
-- signal_example.c: the theorem at process 7 and four presses.
use linux_system_programming.Prelude.{ℕ, pos, Bool, true, false, ◌∷◌, ◌++◌, ◌≡◌}
use linux_system_programming.Sys.{halted, exited, run}
use linux_system_programming.Process.Signal.{main}
use linux_system_programming.Process.Signal.Delivery.{Process, process}
use linux_system_programming.Process.Signal.Laws.{caught, opening, closing, raising, main-lines}

abbrev start : Bool → ℕ → Process
start blocked n = record {
  pid = 7;
  catches_int = false;
  catches_usr1 = false;
  blocked = blocked;
  pending = false;
  presses = n;
}

main-lines_example :
    let quiet = run process main (start false 0) in
    let pressed = run process main (start false 4) in
    let inherited = run process main (start true 3) in
    (quiet.lines ≡ opening 7 ++ (raising ∷ caught ∷ closing 7))
    × (pressed.lines ≡ opening 7 ++ (caught ∷ raising ∷ caught ∷ closing 7))
    × (pressed.result ≡ halted (exited (pos 0)))
    × (pressed.state.pending ≡ false)
    × (inherited.lines ≡ opening 7 ++ (raising ∷ closing 7))
    × (inherited.result ≡ halted (exited (pos 0)))
    × (inherited.state.pending ≡ true)
main-lines_example = main-lines 7 3
