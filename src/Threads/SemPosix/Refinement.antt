-- ===== src/Threads/SemPosix/Refinement.antt =====
-- POSIX/sem_posix_example.c: `main` and its threads refine the step relation, and what they print.
use linux_system_programming.Prelude.{
  ℕ, zero, suc, pos, false, List, [], ◌∷◌, ◌++◌, Option, some, none, ◌≡◌, refl, sym, ◌∙◌, ◌⊎◌, inl,
  inr,
}
use mathlib.Core.Option.{some-injective, none-ne-some}
use linux_system_programming.Sys.{Reply, Line, Prog, End, exited, out_of_fuel}
use linux_system_programming.Threads.Team.{
  Team, Go-answered, Go-blocked, Turn, this, that, Runs, begin, later, ended,
}
use linux_system_programming.Threads.SemPosix.Laws.{Reach-places}
use linux_system_programming.Threads.SemPosix.Program.{
  Call, main, thread_t1, thread_t2, spawned, Shared, threads,
}
use linux_system_programming.Threads.SemPosix.Places.{
  Place, unborn, at_print, at_wait, at_try, at_again, at_nap, at_enter, at_sleep, at_leave, at_post,
  at_end, gone, prog, prog1, prog2, from_print, from_try, prog1-spawned, once-false, Go-Keeps,
}
use linux_system_programming.Threads.SemPosix.Steps.{Go-first, Go-second}
use linux_system_programming.Threads.SemPosix.Order.{Orderly, silence}
use linux_system_programming.Threads.SemPosix.Stages.{
  Stage, creating0, creating1, creating2, joining0, joining1, joining2, destroying, telling,
  end_line, rest, cold, Complete, Sim, before_init, late, over, Late-start, Late-main, AfterMain,
}
use linux_system_programming.Threads.SemPosix.Kept.{Late0, Late1, Late2}

module _ (fuel : ℕ) where
  asleep :
      {A : Type 0} (m : Shared) {ps : List (Prog Call Reply (Unit {0}))} {m' : Shared}
      {o : List Line}
      → ((j : ℕ) → m.created j ≡ false)
      → Turn threads m (prog1 0 unborn ∷ prog1 1 unborn ∷ prog2 2 fuel unborn ∷ []) ps m' o
      → A
  unfolding threads
  asleep m h (this g) = Go-blocked threads (once-false m (h 0)) g
  asleep m h (that (this g)) = Go-blocked threads (once-false m (h 1)) g
  asleep m h (that (that (this g))) = Go-blocked threads (once-false m (h 2)) g
  asleep m h (that (that (that t))) = elim t [ ]

  Sim-step :
      {u : Team Call Reply Shared} {ps : List (Prog Call Reply (Unit {0}))} {m : Shared}
      {o : List Line}
      → Sim fuel u
      → ended u.threads ≡ none
      → Turn threads u.shared u.threads ps m o
      → Sim fuel (record { threads = ps; shared = m; output = u.output ++ o })
  unfolding threads main
  Sim-step before_init h (this g) =
      Go-answered threads (AfterMain fuel unborn unborn unborn []) refl (late (Late-start fuel)) g
  Sim-step before_init h (that t) = asleep cold (λ j. refl) t
  Sim-step (late v) h (this g) = Late-main fuel v g
  Sim-step (late {p = p} v) h (that (this g)) =
      let w = Go-first 0 p (Reach-places v.reach).0 g in rw w.there (late (Late0 v (Go-Keeps g) w))
  Sim-step (late {q = q} v) h (that (that (this g))) =
      let w = Go-first 1 q (Reach-places v.reach).1 g in rw w.there (late (Late1 v (Go-Keeps g) w))
  Sim-step (late {r = r} v) h (that (that (that (this g)))) =
      let w = Go-second 2 fuel r (Reach-places v.reach).2 g in
      rw w.there (late (Late2 fuel v (Go-Keeps g) w))
  Sim-step (late v) h (that (that (that (that t)))) = elim t [ ]
  Sim-step (over x) h t = cc

  abbrev pub process : Team Call Reply Shared
  process = record {
    threads =
        main
        ∷ spawned 0 (thread_t1 0)
        ∷ spawned 1 (thread_t1 1)
        ∷ spawned 2 (thread_t2 fuel 2)
        ∷ [];
    shared = cold;
    output = [];
  }

  pub Runs-Sim : {t : Team Call Reply Shared} → Runs threads process t → Sim fuel t
  Runs-Sim begin = rw (← prog1-spawned 0, ← prog1-spawned 1) before_init
  Runs-Sim (later r h t) = Sim-step (Runs-Sim r) h t

pub ended-prog :
    (i : ℕ) (first : Prog Call Reply (Unit {0})) (p : Place)
    (ps : List (Prog Call Reply (Unit {0})))
    → (ended (prog i first p ∷ ps) ≡ ended ps) ⊎ (ended (prog i first p ∷ ps) ≡ some out_of_fuel)
unfolding thread_t2
ended-prog i first (at_try zero) ps = inr refl
ended-prog i first (at_try (suc f)) ps = inl refl
ended-prog i first unborn ps = inl refl
ended-prog i first at_print ps = inl refl
ended-prog i first at_wait ps = inl refl
ended-prog i first (at_again f) ps = inl refl
ended-prog i first (at_nap f) ps = inl refl
ended-prog i first at_enter ps = inl refl
ended-prog i first at_sleep ps = inl refl
ended-prog i first at_leave ps = inl refl
ended-prog i first at_post ps = inl refl
ended-prog i first at_end ps = inl refl
ended-prog i first gone ps = inl refl

pub ended-rest :
    (st : Stage) (ps : List (Prog Call Reply (Unit {0}))) → ended (rest st ∷ ps) ≡ ended ps
ended-rest creating0 ps = refl
ended-rest creating1 ps = refl
ended-rest creating2 ps = refl
ended-rest joining0 ps = refl
ended-rest joining1 ps = refl
ended-rest joining2 ps = refl
ended-rest destroying ps = refl
ended-rest telling ps = refl

-- Behind a thread the process has ended as it has without it, or for want of tries.
ended-behind :
    {e : End} (i : ℕ) (first : Prog Call Reply (Unit {0})) (p : Place)
    (ps : List (Prog Call Reply (Unit {0})))
    → ended (prog i first p ∷ ps) ≡ some e
    → (e ≡ out_of_fuel) ⊎ (ended ps ≡ some e)
ended-behind i first p ps h = elim (ended-prog i first p ps) [
  | inl x ↦ inr (sym x ∙ h)
  | inr x ↦ inl (some-injective _ _ (sym h ∙ x))
]

Late-starved :
    (fuel : ℕ) (st : Stage) (p q r : Place) {e : End}
    → ended (rest st ∷ prog1 0 p ∷ prog1 1 q ∷ prog2 2 fuel r ∷ []) ≡ some e
    → e ≡ out_of_fuel
Late-starved fuel st p q r h =
    elim (ended-behind 0 (from_print 0) p _ (sym (ended-rest st _) ∙ h)) [
      | inl x ↦ x
      | inr a ↦ elim (ended-behind 1 (from_print 1) q _ a) [
        | inl x ↦ x
        | inr b ↦ elim (ended-behind 2 (from_try 2 fuel) r [] b) [
          | inl x ↦ x
          | inr c ↦ absurd (none-ne-some _ c)
        ]
      ]
    ]

Sim-Orderly :
    (fuel : ℕ) {t : Team Call Reply Shared}
    → Sim fuel t
    → ended t.threads ≡ none
    → (inside : Option ℕ) × (left : List ℕ) × Orderly inside left t.output
Sim-Orderly fuel before_init h = (none, [], silence)
Sim-Orderly fuel (late v) h = (_, _, v.log.orderly)
Sim-Orderly fuel (over x) h = cc

Sim-Complete :
    (fuel : ℕ) {t : Team Call Reply Shared} {e : End}
    → Sim fuel t
    → ended t.threads ≡ some e
    → (e ≡ out_of_fuel)
      ⊎ ((e ≡ exited (pos 0)) × ((o : List Line) × (t.output ≡ o ++ (end_line ∷ [])) × Complete o))
unfolding main
Sim-Complete fuel before_init h = cc
Sim-Complete fuel (late {st} {p} {q} {r} v) h = inl (Late-starved fuel st p q r h)
Sim-Complete fuel (over {o = o} x) h = inr (sym (some-injective _ _ h), (o, refl, x))

-- While the process runs, however its threads are scheduled, what it has printed is orderly: a thread
-- goes into the critical section only where nobody is inside and it has not been there before.
pub Runs-Orderly :
    (fuel : ℕ) {t : Team Call Reply Shared}
    → Runs threads (process fuel) t
    → ended t.threads ≡ none
    → (inside : Option ℕ) × (left : List ℕ) × Orderly inside left t.output
Runs-Orderly fuel r h = Sim-Orderly fuel (Runs-Sim fuel r) h

-- However the threads are scheduled, a process that has ended has run out of the tries of its third
-- thread, or it has returned 0, all three threads have been in the critical section, once each and one
-- after the other, and its last line tells that all have ended.
pub Runs-Complete :
    (fuel : ℕ) {t : Team Call Reply Shared} {e : End}
    → Runs threads (process fuel) t
    → ended t.threads ≡ some e
    → (e ≡ out_of_fuel)
      ⊎ ((e ≡ exited (pos 0)) × ((o : List Line) × (t.output ≡ o ++ (end_line ∷ [])) × Complete o))
Runs-Complete fuel r h = Sim-Complete fuel (Runs-Sim fuel r) h
