-- ===== src/Files/Access/Laws.antt =====
-- The permission programs, one run after another.
use linux_system_programming.Prelude.{ℕ, pos, minus_one, [], ◌∷◌, none, some, ◌≡◌, refl}
use linux_system_programming.Sys.{out, halted, exited, run}
use linux_system_programming.Files.Access.{access_main, chmod_main, creat_main}
use linux_system_programming.Files.Access.Node.{node, allows}

-- Whatever the mode of a file was, after chmod_example.c its owner is told that it can be read and
-- written, and the mode is 0770. Without the file both programs say so, chmod_example.c fails, and
-- no file appears. creat_example.c makes a missing file with mode 0644 and keeps the mode of another.
pub access_main-chmod_main :
    (mode : ℕ)
    → let changed = run node chmod_main (some mode) in
      let told = run node access_main changed.state in
      let missing = run node chmod_main none in
      (changed.result ≡ halted (exited (pos 0)))
      × (told.lines ≡ out "can read and write!\n" [] ∷ [])
      × (told.state ≡ some 0o770)
      × (missing.result ≡ halted (exited minus_one))
      × (missing.state ≡ none)
      × ((run node access_main none).lines ≡ out "no permission, or no file.\n" [] ∷ [])
      × ((run node creat_main none).state ≡ some 0o644)
      × ((run node creat_main (some mode)).state ≡ some mode)
unfolding access_main chmod_main creat_main node allows
access_main-chmod_main mode = (refl, refl, refl, refl, refl, refl, refl, refl)
