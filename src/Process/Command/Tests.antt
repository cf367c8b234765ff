-- ===== src/Process/Command/Tests.antt =====
-- popen_example.c: runs with an output of one line, and with a command that cannot be started.
use linux_system_programming.Prelude.{ℕ, pos, true, false, List, [], ◌∷◌, ◌≡◌, refl}
use linux_system_programming.Sys.{run, halted, exited}
use linux_system_programming.Process.Command.{main, show_output}
use linux_system_programming.Process.Command.Output.{output}

abbrev path : List (List ℕ)
path = (b'/' ∷ 10 ∷ []) ∷ []

main-one_line :
    (run output (main 2) (record { pending = path; status = pos 0; refuse = false })).result
    ≡ halted (exited (pos 0))
unfolding main show_output output
main-one_line = refl

main-no_command :
    (run output (main 2) (record { pending = path; status = pos 0; refuse = true })).result
    ≡ halted (exited (pos 1))
unfolding main output
main-no_command = refl
