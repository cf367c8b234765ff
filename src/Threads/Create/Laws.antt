-- ===== src/Threads/Create/Laws.antt =====
-- pthread_create_example.c: the thread's lines, and main's behind them.
use linux_system_programming.Prelude.{
  ℕ, zero, suc, ◌+◌, pos, Bool, true, false, ◌&&◌, List, [], ◌∷◌, none, some, map, ◌≡◌, refl,
}
use linux_system_programming.Sys.{Line, num, out, Kernel, run, done, halt, exited}
use linux_system_programming.Pair.{
  Shared, Pair, resume, step, Schedule, explore, explore_sound, succeeded, succeeded-≡, numbers,
  same_numbers, same_numbers-≡, and_both,
}
use linux_system_programming.Threads.Create.{
  Call, Reply, pthread_create, pthread_join, count, start_func, main,
}

-- The numbers `i`, `i` + 1, … of the loop.
abbrev pub upto : ℕ → ℕ → List ℕ
upto zero i = []
upto (suc n) i = i ∷ upto n (i + 1)

abbrev pub number_line : ℕ → Line
number_line i = out "%d\n" (num (pos i) ∷ [])

module _ {S : Type 0} (h : Kernel Call Reply S) where
  run-count :
      (n i : ℕ) (s : S)
      → run h (count n i) s
        ≡ record { result = done tt; state = s; calls = []; lines = map number_line (upto n i) }
  unfolding count
  run-count zero i s = refl
  run-count (suc n) i s = rw (run-count n (i + 1) s) refl

  -- The thread prints the numbers below `n` in order, and ends.
  pub run-start_func :
      (n : ℕ) (s : S)
      → run h (start_func n) s
        ≡ record { result = done tt; state = s; calls = []; lines = map number_line (upto n 0) }
  unfolding start_func
  run-start_func n s = run-count n 0 s

-- The thread is the pair's child; a join waits for its end, and gives its 0.
unfoldable pub threads : Shared Call Reply (Unit {0})
threads who other pthread_create s = some (record { ret = pos 0; status = pos 0 }, s)
threads who none pthread_join s = none
threads who (some e) pthread_join s = some (record { ret = pos 0; status = pos 0 }, s)

-- `main` behind pthread_create, and the thread with the ten of `main`.
abbrev pub created : Pair Call Reply (Unit {0})
created = record {
  parent = resume (record { ret = pos 0; status = pos 0 } ∷ []) main;
  child = start_func 10;
  shared = tt;
  parent_out = [];
  child_out = [];
}

abbrev good : Pair Call Reply (Unit {0}) → Bool
good s =
    succeeded s.parent
    && (same_numbers (numbers s.parent_out) (pos 0 ∷ [])
        && same_numbers (numbers s.child_out) (map pos (upto 10 0)))

explored : explore threads 13 good created ≡ true
unfolding explore step threads main start_func
explored = refl

-- Under every schedule of `main` and its thread, where neither can move, the thread has printed the
-- numbers from 0 to 9 in order, and main its status, 0, and has returned 0.
pub Schedule-counts :
    {m : ℕ} {t : Pair Call Reply (Unit {0})}
    → Schedule threads created m t
    → step threads true t ≡ none
    → step threads false t ≡ none
    → (t.parent ≡ halt (exited (pos 0)))
      × (numbers t.parent_out ≡ pos 0 ∷ [])
      × (numbers t.child_out ≡ map pos (upto 10 0))
Schedule-counts {t = t} r a b =
    let (_, g) = explore_sound threads 13 good created explored r in
    let (p, g1) = and_both (succeeded t.parent) _ (g a b) in
    let (o, c) = and_both (same_numbers (numbers t.parent_out) (pos 0 ∷ [])) _ g1 in
    (
      succeeded-≡ t.parent p,
      same_numbers-≡ (numbers t.parent_out) (pos 0 ∷ []) o,
      same_numbers-≡ (numbers t.child_out) (map pos (upto 10 0)) c,
    )
