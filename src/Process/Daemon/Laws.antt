-- ===== src/Process/Daemon/Laws.antt =====
-- daemon_example.c: what the terminal shows, and that the process stays.
use linux_system_programming.Prelude.{
  ℕ, zero, suc, ◌+◌, minus_one, Bool, true, false, List, [], ◌∷◌, ◌++◌, String, ◌≡◌, refl, arith,
}
use native.Mathlib.Nat.{add-zero}
use linux_system_programming.Sys.{out_of_fuel, halted, exited, run}
use linux_system_programming.Process.Daemon.{forever, main}
use linux_system_programming.Process.Daemon.Console.{Console, console}

run-forever :
    (fuel clock : ℕ) (shown : List String) (refuse : Bool)
    → let r =
        run console
          (forever fuel)
          (record { attached = false; shown = shown; clock = clock; refuse = refuse }) in
      (r.result ≡ halted out_of_fuel)
      × (r.state
          ≡ record { attached = false; shown = shown; clock = clock + fuel; refuse = refuse })
unfolding forever console
run-forever zero clock shown refuse = (refl, rw add-zero refl)
run-forever (suc fuel) clock shown refuse =
    let (a, b) = run-forever fuel (clock + 1) shown refuse in
    let e : clock + 1 + fuel ≡ clock + suc fuel = omega arith in (a, rw b (rw e refl))

-- If daemon succeeds the process never ends: however many rounds it is given it makes them all, one
-- in each second, and of its lines the terminal shows the first one only. If daemon fails the
-- process returns -1.
pub main-detaches :
    (fuel clock : ℕ) (shown : List String)
    → let start : Bool → Console =
        λ b. record { attached = true; shown = shown; clock = clock; refuse = b } in
      let r = run console (main fuel) (start false) in
      (r.result ≡ halted out_of_fuel)
      × (r.state.shown ≡ shown ++ ("daemon start\n" ∷ []))
      × (r.state.clock ≡ clock + fuel)
      × ((run console (main fuel) (start true)).result ≡ halted (exited minus_one))
unfolding main console
main-detaches fuel clock shown =
    let (a, b) = run-forever fuel clock (shown ++ ("daemon start\n" ∷ [])) false in
    (a, rw b refl, rw b refl, refl)
