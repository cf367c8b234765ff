-- ===== src/Files/Directory/Tests.antt =====
-- directory_example.c: the theorem at a directory with the entries "." and "f".
use linux_system_programming.Prelude.{
  if◌then◌else◌, ℕ, pos, minus_one, true, List, [], ◌∷◌, ◌==◌, ◌≡◌, refl, arith,
}
use linux_system_programming.Libc.{same_text}
use linux_system_programming.Sys.{halted, exited, run}
use linux_system_programming.Files.Directory.{main}
use linux_system_programming.Files.Directory.Listing.{listing}
use linux_system_programming.Files.Directory.Laws.{among, message, main-answers}

abbrev dot : List ℕ
dot = b'.' ∷ []

abbrev file : List ℕ
file = b'f' ∷ []

abbrev entries : List (List ℕ)
entries = dot ∷ file ∷ []

among-entries : among file entries ≡ true
unfolding same_text
among-entries = refl

main-answers_example :
    let last : ℕ = if among file entries then 0 else 9 in
    let r =
      run listing
        (main 3 (dot ∷ dot ∷ file ∷ []))
        (record { entries = entries; end_errno = 9; print_errno = 0; errno = 4 }) in
    (r.result ≡ halted (exited (if last == 0 then pos 0 else minus_one)))
    × (r.lines ≡ message file (among file entries) (last == 0))
main-answers_example = main-answers 3 dot dot file [] entries 9 0 4 (omega arith)
