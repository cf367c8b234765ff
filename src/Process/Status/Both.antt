-- ===== src/Process/Status/Both.antt =====
-- wait_example.c and parent_child_example.c: the parent and the child at the same time.
use linux_system_programming.Prelude.{
  ℕ, ◌%◌, ◌*◌, ◌-◌, ℤ, pos, minus_one, negsuc, Bool, true, false, ◌&&◌, List, [], ◌∷◌, none, some,
  ◌≡◌, refl,
}
use linux_system_programming.Sys.{Prog, halt, End, exited}
use linux_system_programming.Pair.{
  Shared, Pair, resume, step, Schedule, explore, explore_sound, succeeded, succeeded-≡, numbers,
  same_numbers, same_numbers-≡, and_both,
}
use linux_system_programming.Process.Status.{
  Call, Reply, fork, wait, sleep, report, wait_main, parent_child_main, wexitstatus, wtermsig,
  wstopsig, wifexited, wifsignaled, wifstopped, wifcontinued, wcoredump,
}

abbrev value : ℤ → Reply
value n = record { ret = n; status = 0 }

-- The status word of an exit keeps the low eight bits of the code; -1 is 255.
abbrev word : End → ℕ
word (exited (pos n)) = n % 256 * 256
word (exited (negsuc n)) = (255 - n % 256) * 256
word _ = 11

-- The child is process 9; the parent's wait blocks until it has ended. Nothing else is shared.
unfoldable pub family : Shared Call Reply (Unit {0})
family who other fork s = some (value minus_one, s)
family who none wait s = none
family who (some e) wait s = some (record { ret = pos 9; status = word e }, s)
family who other (sleep n) s = some (value (pos 0), s)

-- A program behind its fork, in both processes.
abbrev pub forked : Prog Call Reply (Unit {0}) → Pair Call Reply (Unit {0})
forked main = record {
  parent = resume (value (pos 9) ∷ []) main;
  child = resume (value (pos 0) ∷ []) main;
  shared = tt;
  parent_out = [];
  child_out = [];
}

abbrev good : List ℤ → Pair Call Reply (Unit {0}) → Bool
good told s = succeeded s.parent && same_numbers (numbers s.parent_out) told

explored_wait : explore family 4 (good (pos 9 ∷ pos 1 ∷ [])) (forked (wait_main wifexited)) ≡ true
unfolding explore step family wait_main report wexitstatus wtermsig wstopsig wifexited wifsignaled
    wifstopped wifcontinued wcoredump
explored_wait = refl

explored_parent_child : explore family 6 (good (pos 7 ∷ [])) (forked parent_child_main) ≡ true
unfolding explore step family parent_child_main wexitstatus wtermsig wstopsig wifexited wifsignaled
    wifstopped wifcontinued wcoredump
explored_parent_child = refl

-- With WIFEXITED for WIFEXISTED: under every schedule of the parent and the child of wait_example.c,
-- where neither can move, the parent has exited with 0 and told the child's pid and its exit status, 1.
pub Schedule-waits :
    {m : ℕ} {t : Pair Call Reply (Unit {0})}
    → Schedule family (forked (wait_main wifexited)) m t
    → step family true t ≡ none
    → step family false t ≡ none
    → (t.parent ≡ halt (exited (pos 0))) × (numbers t.parent_out ≡ pos 9 ∷ pos 1 ∷ [])
Schedule-waits {t = t} r a b =
    let (_, g) = explore_sound family 4 (good (pos 9 ∷ pos 1 ∷ [])) _ explored_wait r in
    let (p, o) = and_both (succeeded t.parent) _ (g a b) in
    (succeeded-≡ t.parent p, same_numbers-≡ (numbers t.parent_out) _ o)

-- Under every schedule of the parent and the child of parent_child_example.c, where neither can
-- move, the parent has exited with 0 and told the child's exit code, 7.
pub Schedule-tells_code :
    {m : ℕ} {t : Pair Call Reply (Unit {0})}
    → Schedule family (forked parent_child_main) m t
    → step family true t ≡ none
    → step family false t ≡ none
    → (t.parent ≡ halt (exited (pos 0))) × (numbers t.parent_out ≡ pos 7 ∷ [])
Schedule-tells_code {t = t} r a b =
    let (_, g) = explore_sound family 6 (good (pos 7 ∷ [])) _ explored_parent_child r in
    let (p, o) = and_both (succeeded t.parent) _ (g a b) in
    (succeeded-≡ t.parent p, same_numbers-≡ (numbers t.parent_out) _ o)
