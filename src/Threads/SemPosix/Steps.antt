-- ===== src/Threads/SemPosix/Steps.antt =====
-- POSIX/sem_posix_example.c: each step of a thread is one of the step relation, or none that it sees.
use linux_system_programming.Prelude.{
  Option, ℕ, zero, suc, ◌+◌, ◌-◌, ◌<◌, ◌==◌, pos, minus_one, List, [], some, none, ◌≡◌, refl, inl,
  inr, Bool-cases, arith,
}
use linux_system_programming.Sys.{Reply, Line, Prog}
use linux_system_programming.Threads.Team.{Go, prints, Go-answered, Go-blocked}
use linux_system_programming.Threads.SemPosix.{
  Move1, announce, wait, post, Move2, enter, acquire, again, retry, post2,
}
use linux_system_programming.Threads.SemPosix.Laws.{IsPlace1, IsPlace2}
use linux_system_programming.Threads.SemPosix.Program.{
  Call, thread_t2, Shared, value, eagain, take, threads,
}
use linux_system_programming.Threads.SemPosix.Places.{
  Place, unborn, at_print, at_wait, at_try, at_again, at_nap, at_enter, at_sleep, at_leave, at_post,
  at_end, gone, prog1, prog2, from_print, from_try, pc, nothing, waits, retries, enters, leaves,
  Moved, still, moves, once-true, once-false, Go-end, Go-sleep,
}

pub take-none : {n : ℕ} (x : Option (Reply × Shared)) (s : Shared) → n ≡ 0 → take n x s ≡ x
take-none x s e = rw e refl

pub take-some :
    {n : ℕ} (x : Option (Reply × Shared)) (s : Shared)
    → 0 < n
    → take n x s ≡ some (value (pos 0), record s { sem = n - 1 })
take-some {n = zero} x s h = absurd (omega arith)
take-some {n = suc n} x s h = let e : suc n - 1 ≡ n = omega arith in rw e refl

abbrev with_sem : ℕ → Shared → Shared
with_sem n s = record s { sem = n }

pub Go-first :
    (tidx : ℕ) (pl : Place) {s s' : Shared} {p : Prog Call Reply (Unit {0})} {o : List Line}
    → IsPlace1 (pc pl)
    → Go threads s (prog1 tidx pl) p s' o
    → Moved Move1 tidx (from_print tidx) s pl p s' o
unfolding threads
Go-first tidx unborn {s} v g = elim (Bool-cases (s.created tidx)) [
  | inl e ↦
      Go-answered threads (Moved Move1 tidx (from_print tidx) s unborn) (once-true s e)
        (moves tidx (from_print tidx) Move1 s s unborn at_print [] announce (λ j. refl)
          (nothing refl refl) refl refl)
        g
  | inr e ↦ Go-blocked threads (once-false s e) g
]
Go-first tidx at_print {s} v prints =
    still tidx (from_print tidx) Move1 s s at_print at_wait _ refl (λ j. refl) (waits refl refl)
      refl refl refl
Go-first tidx at_wait {s} v g = elim (Bool-cases (0 == s.sem)) [
  | inl e ↦ Go-blocked threads (take-none none s (ground arith)) g
  | inr e ↦
      let h : 0 < s.sem = ground arith in
      Go-answered threads (Moved Move1 tidx (from_print tidx) s at_wait) (take-some none s h)
        (moves tidx (from_print tidx) Move1 s (with_sem (s.sem - 1) s) at_wait at_enter [] (wait h)
          (λ j. refl) (nothing refl refl) refl refl)
        g
]
Go-first tidx at_enter {s} v prints =
    still tidx (from_print tidx) Move1 s s at_enter at_sleep _ refl (λ j. refl)
      (enters refl refl refl refl) refl refl refl
Go-first tidx at_sleep v g = Go-sleep tidx (from_print tidx) Move1 g
Go-first tidx at_leave {s} v prints =
    still tidx (from_print tidx) Move1 s s at_leave at_post _ refl (λ j. refl)
      (leaves refl refl refl refl) refl refl refl
Go-first tidx at_post {s} v g =
    Go-answered threads (Moved Move1 tidx (from_print tidx) s at_post) refl
      (moves tidx (from_print tidx) Move1 s (with_sem (s.sem + 1) s) at_post at_end [] post
        (λ j. refl) (nothing refl refl) refl refl)
      g
Go-first tidx at_end v g = Go-end tidx (from_print tidx) Move1 g
Go-first tidx gone v g = elim g [ ]
Go-first tidx (at_try fuel) v g = elim v [ ]
Go-first tidx (at_again fuel) v g = elim v [ ]
Go-first tidx (at_nap fuel) v g = elim v [ ]

pub Go-second :
    (tidx fuel0 : ℕ) (pl : Place) {s s' : Shared} {p : Prog Call Reply (Unit {0})} {o : List Line}
    → IsPlace2 (pc pl)
    → Go threads s (prog2 tidx fuel0 pl) p s' o
    → Moved Move2 tidx (from_try tidx fuel0) s pl p s' o
unfolding threads thread_t2
Go-second tidx fuel0 unborn {s} v g = elim (Bool-cases (s.created tidx)) [
  | inl e ↦
      Go-answered threads (Moved Move2 tidx (from_try tidx fuel0) s unborn) (once-true s e)
        (moves tidx (from_try tidx fuel0) Move2 s s unborn (at_try fuel0) [] enter (λ j. refl)
          (nothing refl refl) refl refl)
        g
  | inr e ↦ Go-blocked threads (once-false s e) g
]
Go-second tidx fuel0 (at_try zero) v g = elim g [ ]
Go-second tidx fuel0 (at_try (suc fuel)) {s} v g = elim (Bool-cases (0 == s.sem)) [
  | inl e ↦
      let h : s.sem ≡ 0 = ground arith in
      Go-answered threads (Moved Move2 tidx (from_try tidx fuel0) s (at_try (suc fuel)))
        (take-none (some (record { ret = minus_one; errno = eagain; text = [] }, s)) s h)
        (moves tidx (from_try tidx fuel0) Move2 s s (at_try (suc fuel)) (at_again fuel) [] (again h)
          (λ j. refl) (nothing refl refl) refl refl)
        g
  | inr e ↦
      let h : 0 < s.sem = ground arith in
      Go-answered threads (Moved Move2 tidx (from_try tidx fuel0) s (at_try (suc fuel)))
        (take-some _ s h)
        (moves tidx (from_try tidx fuel0) Move2 s (with_sem (s.sem - 1) s) (at_try (suc fuel))
          at_enter [] (acquire h) (λ j. refl) (nothing refl refl) refl refl)
        g
]
Go-second tidx fuel0 (at_again fuel) {s} v prints =
    still tidx (from_try tidx fuel0) Move2 s s (at_again fuel) (at_nap fuel) _ refl (λ j. refl)
      (retries refl refl) refl refl refl
Go-second tidx fuel0 (at_nap fuel) {s} v g =
    Go-answered threads (Moved Move2 tidx (from_try tidx fuel0) s (at_nap fuel)) refl
      (moves tidx (from_try tidx fuel0) Move2 s s (at_nap fuel) (at_try fuel) [] retry (λ j. refl)
        (nothing refl refl) refl refl)
      g
Go-second tidx fuel0 at_enter {s} v prints =
    still tidx (from_try tidx fuel0) Move2 s s at_enter at_sleep _ refl (λ j. refl)
      (enters refl refl refl refl) refl refl refl
Go-second tidx fuel0 at_sleep v g = Go-sleep tidx (from_try tidx fuel0) Move2 g
Go-second tidx fuel0 at_leave {s} v prints =
    still tidx (from_try tidx fuel0) Move2 s s at_leave at_post _ refl (λ j. refl)
      (leaves refl refl refl refl) refl refl refl
Go-second tidx fuel0 at_post {s} v g =
    Go-answered threads (Moved Move2 tidx (from_try tidx fuel0) s at_post) refl
      (moves tidx (from_try tidx fuel0) Move2 s (with_sem (s.sem + 1) s) at_post at_end [] post2
        (λ j. refl) (nothing refl refl) refl refl)
      g
Go-second tidx fuel0 at_end v g = Go-end tidx (from_try tidx fuel0) Move2 g
Go-second tidx fuel0 gone v g = elim g [ ]
Go-second tidx fuel0 at_print v g = elim v [ ]
Go-second tidx fuel0 at_wait v g = elim v [ ]
