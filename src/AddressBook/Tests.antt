-- ===== src/AddressBook/Tests.antt =====
-- malloc_example.c: the theorems for a user who types "y" and 1 at every question.
use linux_system_programming.Prelude.{ℕ, ◌≤◌, pos, List, [], ◌∷◌, ◌≡◌, refl, arith, length}
use linux_system_programming.Sys.{Kernel, run, done, halted, exited}
use linux_system_programming.AddressBook.{
  Reply, Call, scan_int, scan_text, calloc, realloc, free, Book, blank, add_step, build, main,
  input_person_information, input_one, scanned_text,
}
use linux_system_programming.AddressBook.Build.{Numbered, run-build}
use linux_system_programming.AddressBook.Print.{main-exits}

abbrev answers : List ℕ → Kernel Call Reply ℕ
answers word (scan_int) s = (record { ret = pos 1; number = pos 1; text = [] }, s)
answers word (scan_text n) s = (record { ret = pos 1; number = pos 0; text = word }, s)
answers word (calloc n) s = (record { ret = pos 1; number = pos 1; text = [] }, s)
answers word (realloc n) s = (record { ret = pos 1; number = pos 1; text = [] }, s)
answers word free s = (record { ret = pos 0; number = pos 0; text = [] }, s)

abbrev yes_man : Kernel Call Reply ℕ
yes_man = answers (b'y' ∷ [])

abbrev stack : List ℕ
stack = 7 ∷ 7 ∷ []

run-build_example :
    (b : ℕ × Book) × ((run yes_man (build blank stack (pos 5) (pos 5) (pos 5)) 0).result ≡ done b)
    × (1 ≤ b.0)
    × (length b.1 ≡ b.0)
    × Numbered 1 b.1
run-build_example =
    run-build yes_man (λ n s w. (refl, w)) blank stack (pos 5) (pos 5) (pos 5) 0 0 (λ k t. refl)
      (λ k t. refl) (λ t. omega arith) refl

main-exits_example :
    (run yes_man (main blank stack (pos 5) (pos 5) (pos 5)) 0).result ≡ halted (exited (pos 0))
main-exits_example =
    main-exits yes_man (λ n s w. (refl, w)) blank stack (pos 5) (pos 5) (pos 5) 0 0 (λ k t. refl)
      (λ k t. refl) (λ t. omega arith) refl

-- A small "y" does add a person.
add_step_small :
    (run yes_man (add_step blank stack (pos 5) (pos 5) (pos 5) 1 (blank ∷ [])) 0).calls
    ≡ scan_text 2
      ∷ scan_int
      ∷ realloc 2
      ∷ scan_text 32
      ∷ scan_text 32
      ∷ scan_text 32
      ∷ scan_text 128
      ∷ []
unfolding add_step input_person_information input_one scanned_text
add_step_small = refl
