-- ===== src/Threads/SemPosix/Progress.antt =====
-- POSIX/sem_posix_example.c: the process never comes to a state in which no thread can move.
use linux_system_programming.Prelude.{
  ℕ, zero, suc, ◌==◌, ◌<◌, true, List, [], ◌∷◌, none, some, ◌≡◌, refl, sym, ◌∙◌, ◌⊎◌, inl, inr,
  Bool-cases, arith,
}
use mathlib.Core.Option.{none-ne-some}
use linux_system_programming.Sys.{Reply, Line, Prog, out_of_fuel}
use linux_system_programming.Threads.Team.{Team, Go, prints, calls, Turn, this, that, Runs, ended}
use linux_system_programming.Threads.SemPosix.Laws.{holds, Reach-one_holder}
use linux_system_programming.Threads.SemPosix.Program.{Call, main, thread_t2, Shared, threads}
use linux_system_programming.Threads.SemPosix.Places.{
  Place, unborn, at_print, at_wait, at_try, at_again, at_nap, at_enter, at_sleep, at_leave, at_post,
  at_end, gone, prog, prog1, prog2, from_print, from_try, pc, is_gone, once-true,
}
use linux_system_programming.Threads.SemPosix.Steps.{take-some, take-none}
use linux_system_programming.Threads.SemPosix.Stages.{
  Stage, creating0, creating1, creating2, joining0, joining1, joining2, destroying, telling, rest,
  Late, Sim, before_init, late, over,
}
use linux_system_programming.Threads.SemPosix.Refinement.{process, Runs-Sim, ended-prog, ended-rest}

abbrev pub CanMove : List (Prog Call Reply (Unit {0})) → Shared → Type 0
CanMove ps m =
    (ps' : List (Prog Call Reply (Unit {0}))) × (m' : Shared) × (o : List Line) × Turn threads m ps
      ps' m' o

abbrev CanGo : Prog Call Reply (Unit {0}) → Shared → Type 0
CanGo p m =
    (p' : Prog Call Reply (Unit {0})) × (m' : Shared) × (o : List Line) × Go threads m p p' m' o

-- What keeps a thread from a step.
data Ready (m : Shared) (pl : Place) (p : Prog Call Reply (Unit {0})) : Type 0 where
  goes : CanGo p m → Ready m pl p
  rests : (is_gone pl ≡ true) ⊎ (m.sem ≡ 0) → holds (pc pl) ≡ 0 → Ready m pl p
  starved :
      ((ps : List (Prog Call Reply (Unit {0}))) → ended (p ∷ ps) ≡ some out_of_fuel) → Ready m pl p

ready :
    (i : ℕ) (first : Prog Call Reply (Unit {0})) (pl : Place) (m : Shared)
    → m.created i ≡ true
    → Ready m pl (prog i first pl)
unfolding threads thread_t2
ready i first unborn m b = goes (_, _, _, calls (once-true m b))
ready i first at_print m b = goes (_, _, _, prints)
ready i first at_wait m b = elim (Bool-cases (0 == m.sem)) [
  | inl e ↦ rests (inr (ground arith)) refl
  | inr e ↦ let h : 0 < m.sem = ground arith in goes (_, _, _, calls (take-some none m h))
]
ready i first (at_try zero) m b = starved (λ ps. refl)
ready i first (at_try (suc f)) m b = elim (Bool-cases (0 == m.sem)) [
  | inl e ↦ let h : m.sem ≡ 0 = ground arith in goes (_, _, _, calls (take-none _ m h))
  | inr e ↦ let h : 0 < m.sem = ground arith in goes (_, _, _, calls (take-some _ m h))
]
ready i first (at_again f) m b = goes (_, _, _, prints)
ready i first (at_nap f) m b = goes (_, _, _, calls refl)
ready i first at_enter m b = goes (_, _, _, prints)
ready i first at_sleep m b = goes (_, _, _, calls refl)
ready i first at_leave m b = goes (_, _, _, prints)
ready i first at_post m b = goes (_, _, _, calls refl)
ready i first at_end m b = goes (_, _, _, calls refl)
ready i first gone m b = rests (inl refl) refl

must_be_gone :
    (p : Place) (m : Shared) → (is_gone p ≡ true) ⊎ (m.sem ≡ 0) → m.sem ≡ 1 → is_gone p ≡ true
must_be_gone p m (inl e) h = e
must_be_gone p m (inr e) h = absurd (omega (arith, e, h))

none_behind :
    (i : ℕ) (first : Prog Call Reply (Unit {0})) (p : Place)
    (ps : List (Prog Call Reply (Unit {0})))
    → ended (prog i first p ∷ ps) ≡ none
    → ended ps ≡ none
none_behind i first p ps h = elim (ended-prog i first p ps) [
  | inl e ↦ sym e ∙ h
  | inr e ↦ absurd (none-ne-some _ (sym h ∙ e))
]

module _ (fuel : ℕ) where
  abbrev all :
      Prog Call Reply (Unit {0}) → Place → Place → Place → List (Prog Call Reply (Unit {0}))
  all g p q r = g ∷ prog1 0 p ∷ prog1 1 q ∷ prog2 2 fuel r ∷ []

  by_main :
      {g : Prog Call Reply (Unit {0})} (p q r : Place) {m : Shared}
      → CanGo g m
      → CanMove (all g p q r) m
  by_main p q r (_, _, _, g) = (_, _, _, this g)

  -- Once all are created one of them can move until all are gone.
  one_moves :
      {st : Stage} (p q r : Place) {m : Shared} {o : List Line} (g : Prog Call Reply (Unit {0}))
      → Late st p q r m o
      → ended (prog1 0 p ∷ prog1 1 q ∷ prog2 2 fuel r ∷ []) ≡ none
      → (m.created 0 ≡ true) × (m.created 1 ≡ true) × (m.created 2 ≡ true)
      → (is_gone p ≡ true → is_gone q ≡ true → is_gone r ≡ true → ⊥)
      → CanMove (all g p q r) m
  one_moves p q r {m} g v h (b0, b1, b2) c =
      let h1 = none_behind 0 (from_print 0) p _ h in
      let h2 = none_behind 1 (from_print 1) q _ h1 in
      let n = (Reach-one_holder v.reach).0 in
      elim (ready 0 (from_print 0) p m b0) [
        | goes (_, _, _, z) ↦ (_, _, _, that (this z))
        | starved e ↦ absurd (none-ne-some _ (sym h ∙ e _))
        | rests e x ↦ elim (ready 1 (from_print 1) q m b1) [
          | goes (_, _, _, z) ↦ (_, _, _, that (that (this z)))
          | starved e' ↦ absurd (none-ne-some _ (sym h1 ∙ e' _))
          | rests e' x' ↦ elim (ready 2 (from_try 2 fuel) r m b2) [
            | goes (_, _, _, z) ↦ (_, _, _, that (that (that (this z))))
            | starved e'' ↦ absurd (none-ne-some _ (sym h2 ∙ e'' _))
            | rests e'' x'' ↦
                let one : m.sem ≡ 1 = omega (arith, n, x, x', x'') in
                absurd
                  (c (must_be_gone p m e one) (must_be_gone q m e' one) (must_be_gone r m e'' one))
          ]
        ]
      ]

  Late-moves :
      (st : Stage) (p q r : Place) (m : Shared) (o : List Line)
      → Late st p q r m o
      → ended (prog1 0 p ∷ prog1 1 q ∷ prog2 2 fuel r ∷ []) ≡ none
      → CanMove (all (rest st) p q r) m
  unfolding threads
  Late-moves creating0 p q r m o v h = by_main p q r (_, _, _, calls refl)
  Late-moves creating1 p q r m o v h = by_main p q r (_, _, _, calls refl)
  Late-moves creating2 p q r m o v h = by_main p q r (_, _, _, calls refl)
  Late-moves joining0 p q r m o v h = elim (Bool-cases (is_gone p)) [
    | inl e ↦ by_main p q r (_, _, _, calls (once-true m (v.end0 ∙ e)))
    | inr e ↦ one_moves p q r (rest joining0) v h v.born (λ a b c. cc)
  ]
  Late-moves joining1 p q r m o v h = elim (Bool-cases (is_gone q)) [
    | inl e ↦ by_main p q r (_, _, _, calls (once-true m (v.end1 ∙ e)))
    | inr e ↦ one_moves p q r (rest joining1) v h v.born (λ a b c. cc)
  ]
  Late-moves joining2 p q r m o v h = elim (Bool-cases (is_gone r)) [
    | inl e ↦ by_main p q r (_, _, _, calls (once-true m (v.end2 ∙ e)))
    | inr e ↦ one_moves p q r (rest joining2) v h v.born (λ a b c. cc)
  ]
  Late-moves destroying p q r m o v h = by_main p q r (_, _, _, calls refl)
  Late-moves telling p q r m o v h = by_main p q r (_, _, _, prints)

  Sim-moves :
      {t : Team Call Reply Shared}
      → Sim fuel t
      → ended t.threads ≡ none
      → CanMove t.threads t.shared
  unfolding threads main
  Sim-moves before_init h = by_main unborn unborn unborn (_, _, _, calls refl)
  Sim-moves (late {st} {p} {q} {r} v) h = Late-moves st p q r _ _ v (sym (ended-rest st _) ∙ h)
  Sim-moves (over x) h = cc

-- No deadlock: however the threads are scheduled, while the process has not ended `main` or one of the
-- three threads can move.
pub Runs-moves :
    (fuel : ℕ) {t : Team Call Reply Shared}
    → Runs threads (process fuel) t
    → ended t.threads ≡ none
    → CanMove t.threads t.shared
Runs-moves fuel r h = Sim-moves fuel (Runs-Sim fuel r) h
