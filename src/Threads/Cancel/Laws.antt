-- ===== src/Threads/Cancel/Laws.antt =====
-- pthread_cancel_example.c: main ends, and with it the thread's lines.
use linux_system_programming.Prelude.{
  ℕ, suc, ◌≤◌, pos, Bool, true, false, ◌&&◌, leb, ◌==◌, [], ◌∷◌, none, length, ◌≡◌, refl, arith,
}
use linux_system_programming.Sys.{Reply, halt, exited}
use linux_system_programming.Pair.{
  Pair, resume, step, Schedule, explore, explore_sound, succeeded, succeeded-≡, and_both,
}
use linux_system_programming.Threads.Cancel.{Call, keep_on, start_func, main}
use linux_system_programming.Threads.Cancel.Timed.{Timed, timed}

-- `main` behind pthread_create, and the thread with `k` rounds more than six.
abbrev pub created : ℕ → Pair Call Reply Timed
created k = record {
  parent = resume (record { ret = pos 0; errno = 0; text = [] } ∷ []) main;
  child = start_func (suc (suc (suc (suc (suc (suc k))))));
  shared = record { now = 0; main_until = none; thread_until = none; cancelled = false };
  parent_out = [];
  child_out = [];
}

abbrev good : Pair Call Reply Timed → Bool
good s =
    succeeded s.parent
    && (s.shared.cancelled
        && (s.shared.now == 5 && (leb 5 (length s.child_out) && leb (length s.child_out) 6)))

explored : (k : ℕ) → explore timed 22 good (created k) ≡ true
unfolding explore step timed main start_func keep_on
explored k = refl

-- However many rounds more than six the thread is given, no schedule has more than twenty-one steps,
-- and under every schedule, where neither can move, the thread was cancelled in the fifth second, main
-- has exited with 0, and the thread has printed its first line and four or five others.
pub Schedule-cancels :
    (k : ℕ) {m : ℕ} {t : Pair Call Reply Timed}
    → Schedule timed (created k) m t
    → (m ≤ 21)
      × (step timed true t ≡ none
          → step timed false t ≡ none
          → (t.parent ≡ halt (exited (pos 0)))
            × (t.shared.cancelled ≡ true)
            × (t.shared.now ≡ 5)
            × (5 ≤ length t.child_out)
            × (length t.child_out ≤ 6))
Schedule-cancels k {t = t} r =
    let (l, g) = explore_sound timed 22 good (created k) (explored k) r in
    (
      omega (arith, l),
      λ a b.
          let (p, g1) = and_both (succeeded t.parent) _ (g a b) in
          let (c, g2) = and_both t.shared.cancelled _ g1 in
          let (n, g3) = and_both (t.shared.now == 5) _ g2 in
          let (x, y) = and_both (leb 5 (length t.child_out)) _ g3 in
          (succeeded-≡ t.parent p, c, ground arith, ground arith, ground arith),
    )
