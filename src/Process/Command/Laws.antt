-- ===== src/Process/Command/Laws.antt =====
-- popen_example.c: what is printed of the command's output.
use linux_system_programming.Prelude.{
  ℕ, zero, suc, ◌<◌, ℤ, pos, Bool, true, false, is_minus_one, List, [], ◌∷◌, ◌++◌, length, map,
  if◌then◌else◌, ◌≡◌, refl, arith, Bool-cases, inl, inr,
}
use linux_system_programming.Sys.{Line, str, out, err, done, halted, exited, run, run->>=, and_then}
use linux_system_programming.Process.Command.{main, show_output}
use linux_system_programming.Process.Command.Output.{Output, output}

abbrev pub shown : List ℕ → Line
shown text = out "%s" (str text ∷ [])

run-show_output :
    (fuel : ℕ) (pending : List (List ℕ)) (status : ℤ) (refuse : Bool)
    → length pending < fuel
    → let r =
        run output
          (show_output fuel)
          (record { pending = pending; status = status; refuse = refuse }) in
      (r.result ≡ done tt)
      × (r.state ≡ record { pending = []; status = status; refuse = refuse })
      × (r.lines ≡ map shown pending)
unfolding show_output output
run-show_output zero pending status refuse h = elim h [ ]
run-show_output (suc fuel) [] status refuse h = (refl, refl, refl)
run-show_output (suc fuel) (t ∷ ts) status refuse h =
    let (a, b, c) = run-show_output fuel ts status refuse (omega arith) in (a, b, rw c refl)

abbrev pub complaint : Bool → List Line
complaint true = err "pclose error: %m\n" ∷ []
complaint false = []

-- With more rounds than lines, and if the command can be started, the program prints every line of
-- its output in order and ends: with 0, or with 1 and a complaint where pclose fails.
pub main-prints_output :
    (fuel : ℕ) (pending : List (List ℕ)) (status : ℤ)
    → length pending < fuel
    → let r =
        run output (main fuel) (record { pending = pending; status = status; refuse = false }) in
      (r.result ≡ halted (exited (if is_minus_one status then pos 1 else pos 0)))
      × (r.lines ≡ out "Current Path is " [] ∷ map shown pending ++ complaint (is_minus_one status))
unfolding main output
main-prints_output fuel pending status h =
    let start : Output = record { pending = pending; status = status; refuse = false } in
    let (a, b, c) = run-show_output fuel pending status false h in
    rw (run->>= output _ (show_output fuel) start) (
      rw (a, and_then)
        (rw b (
          rw c (elim (Bool-cases (is_minus_one status)) [
            | inl e ↦ rw e (refl, refl)
            | inr e ↦ rw e (refl, refl)
          ]))))
