-- ===== src/Files/Access/Tests.antt =====
-- The permission programs: a run over a file that nobody may use.
use linux_system_programming.Prelude.{pos, some, [], ◌∷◌, ◌≡◌, refl}
use linux_system_programming.Sys.{run, out, halted, exited}
use linux_system_programming.Files.Access.{access_main, chmod_main}
use linux_system_programming.Files.Access.Node.{node, allows}

chmod_main-run :
    let changed = run node chmod_main (some 0) in
    (changed.result ≡ halted (exited (pos 0)))
    × ((run node access_main changed.state).lines ≡ out "can read and write!\n" [] ∷ [])
unfolding access_main chmod_main node allows
chmod_main-run = (refl, refl)
