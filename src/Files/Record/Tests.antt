-- ===== src/Files/Record/Tests.antt =====
-- stdio_example.c: the theorems at memory that holds 7s.
use linux_system_programming.Prelude.{pos, [], ◌∷◌, none, some, replicate, ◌≡◌, refl, arith}
use linux_system_programming.Sys.{num, str, out, halted, exited, run}
use linux_system_programming.Libc.{codes}
use linux_system_programming.Files.Record.{AddressInfo, bytes_of, filled, main}
use linux_system_programming.Files.Record.Stored.{stored}
use linux_system_programming.Files.Record.Laws.{IsSized, main-shows}

abbrev kim : AddressInfo
kim = record {
  index = 4_000_000_000;
  name = replicate 32 7;
  phone_number = replicate 16 7;
  address = replicate 100 7;
}

kim-IsSized : IsSized kim
kim-IsSized = (omega arith, refl, refl, refl)

main-shows_example :
    let r = run stored (main kim) (record { file = none; room = 4096; buffer = [] }) in
    (r.result ≡ halted (exited (pos 0)))
    × (r.state.file ≡ some (bytes_of (filled kim)))
    × (r.lines
        ≡ out "index: %d\n" (num (pos 1) ∷ [])
          ∷ out "name: %s\n" (str (codes "Kim") ∷ [])
          ∷ out "phone number: %s\n" (str (codes "010-1234-5678") ∷ [])
          ∷ out "address: %s\n" (str (codes "Seoul") ∷ [])
          ∷ [])
main-shows_example =
    main-shows kim (record { file = none; room = 4096; buffer = [] }) kim-IsSized (omega arith)
