-- ===== src/Process/Clock/Tests.antt =====
-- gmtime_localtime.c: the theorems at a local time that is nine hours ahead.
use linux_system_programming.Prelude.{pos, [], ◌∷◌, some, ◌≡◌, refl}
use linux_system_programming.Sys.{halted, exited, run}
use linux_system_programming.Process.Clock.{Tm, main}
use linux_system_programming.Process.Clock.Store.{Store, library}
use linux_system_programming.Process.Clock.Laws.{line, utc_format, local_format, main-aliases}

abbrev morning : Tm
morning = record { tm_year = pos 126; tm_mon = 0; tm_mday = 2; tm_hour = 3; tm_min = 4; tm_sec = 5 }

abbrev noon : Tm
noon = record { tm_year = pos 126; tm_mon = 0; tm_mday = 2; tm_hour = 12; tm_min = 4; tm_sec = 5 }

abbrev store : Store
store = record { now = pos 100; buffer = noon }

main-aliases_example :
    let r = run (library (λ t. some morning) (λ t. some noon)) main store in
    (r.result ≡ halted (exited (pos 0)))
    × (r.lines
        ≡ line utc_format noon
          ∷ line local_format noon
          ∷ line utc_format morning
          ∷ line local_format noon
          ∷ [])
main-aliases_example =
    main-aliases (λ t. some morning) (λ t. some noon) store morning noon refl refl
