-- ===== src/Process/Status/Tests.antt =====
-- wait_example.c and parent_child_example.c: the theorems at concrete kernels.
use linux_system_programming.Prelude.{false, none, ℕ, pos, true, [], ◌∷◌, ◌≡◌, refl, arith}
use linux_system_programming.Sys.{halt, num, out, halted, exited, Kernel, run}
use linux_system_programming.Pair.{Pair, Schedule, step, play, play-Schedule}
use linux_system_programming.Process.Status.Both.{forked, family}
use linux_system_programming.Process.Status.{
  report, wexitstatus, wtermsig, wstopsig, wifexited, wifsignaled, wifstopped, wifcontinued,
  wcoredump, Call, Reply, fork, wait, sleep, wait_main, parent_child_main,
}
use linux_system_programming.Process.Status.Laws.{killed, parent_told, parent_child_main-told}

-- The child is process 9 and its status is the state.
abbrev kernel : Kernel Call Reply ℕ
kernel fork s = (record { ret = pos 9; status = 0 }, s)
kernel wait s = (record { ret = pos 9; status = s }, s)
kernel (sleep n) s = (record { ret = pos 0; status = 0 }, s)

parent_child_main-told_example :
    let r = run kernel parent_child_main 139 in
    (r.result ≡ halted (exited (pos 0)))
    × (r.calls ≡ fork ∷ wait ∷ [])
    × (r.lines ≡ out "parent: waiting for the child...\n" [] ∷ parent_told (killed 11 true))
parent_child_main-told_example =
    parent_child_main-told kernel (killed 11 true) 139 (omega arith, omega arith) refl refl refl

abbrev waited : Pair Call Reply (Unit {0})
waited = record {
  parent = halt (exited (pos 0));
  child = halt (exited (pos 1));
  shared = tt;
  parent_out =
      out "pid = %d\n" (num (pos 9) ∷ [])
      ∷ out "child process terminated with exit status(%d)\n" (num (pos 1) ∷ [])
      ∷ [];
  child_out = [];
}

Schedule-waited : Schedule family (forked (wait_main wifexited)) 3 waited
unfolding play step family wait_main report wexitstatus wtermsig wstopsig wifexited wifsignaled
    wifstopped wifcontinued wcoredump
Schedule-waited =
    play-Schedule family (true ∷ true ∷ true ∷ []) (forked (wait_main wifexited)) waited refl

stuck_waited : (step family true waited ≡ none) × (step family false waited ≡ none)
unfolding step
stuck_waited = (refl, refl)

abbrev told_code : Pair Call Reply (Unit {0})
told_code = record {
  parent = halt (exited (pos 0));
  child = halt (exited (pos 7));
  shared = tt;
  parent_out =
      out "parent: waiting for the child...\n" []
      ∷ out "parent: child ended, exit code: %d\n" (num (pos 7) ∷ [])
      ∷ [];
  child_out = out "child: ends in 3 seconds (exit code 7)\n" [] ∷ [];
}

Schedule-told_code : Schedule family (forked parent_child_main) 5 told_code
unfolding play step family parent_child_main wexitstatus wtermsig wifexited wifsignaled
Schedule-told_code =
    play-Schedule family (true ∷ false ∷ false ∷ true ∷ true ∷ []) (forked parent_child_main)
      told_code refl

stuck_told_code : (step family true told_code ≡ none) × (step family false told_code ≡ none)
unfolding step
stuck_told_code = (refl, refl)
