-- ===== src/Process/Daemon/Tests.antt =====
-- daemon_example.c: a run of three rounds.
use linux_system_programming.Prelude.{Bool, false, true, [], ◌∷◌, ◌≡◌, refl}
use linux_system_programming.Sys.{run}
use linux_system_programming.Process.Daemon.{main, forever}
use linux_system_programming.Process.Daemon.Console.{Console, console}

abbrev start : Bool → Console
start b = record { attached = true; shown = []; clock = 5; refuse = b }

main-three_rounds :
    ((run console (main 3) (start false)).state.shown ≡ "daemon start\n" ∷ [])
    × ((run console (main 3) (start false)).state.clock ≡ 8)
unfolding main forever console
main-three_rounds = (refl, refl)
