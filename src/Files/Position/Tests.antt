-- ===== src/Files/Position/Tests.antt =====
-- stdio_example3.c: the theorem at an old file, in the hundredth second.
use linux_system_programming.Prelude.{pos, ◌∷◌, [], ◌++◌, map, replicate, ◌≡◌}
use linux_system_programming.Sys.{halted, exited, run}
use linux_system_programming.Files.Position.{hello, dot, newline, main}
use linux_system_programming.Files.Position.Terminal.{terminal}
use linux_system_programming.Files.Position.Laws.{start, told, ticks, main-timing}

main-timing_example :
    let r = run terminal main (start (b'o' ∷ b'l' ∷ b'd' ∷ []) 2 100) in
    (r.result ≡ halted (exited (pos 0)))
    × (r.state.file ≡ hello)
    × (r.state.shown
        ≡ told 100
          ++ (map (λ l. (105, l)) (replicate 5 dot ++ (newline ∷ []))
              ++ (ticks 105 5 ++ ((110, newline) ∷ []))))
main-timing_example = main-timing (b'o' ∷ b'l' ∷ b'd' ∷ []) 2 100
