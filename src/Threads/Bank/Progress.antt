-- ===== src/Threads/Bank/Progress.antt =====
-- pthread_example.c: the process never comes to a state in which no thread can move.
use linux_system_programming.Prelude.{
  ℤ, Bool, true, false, List, [], ◌∷◌, none, ◌≡◌, refl, ◌∙◌, ◌⊎◌, inl, inr, Bool-cases, arith,
}
use linux_system_programming.Sys.{Line, Prog}
use linux_system_programming.Threads.Team.{Team, Go, prints, calls, Turn, this, that, Runs, ended}
use linux_system_programming.Threads.Bank.Laws.{holds, Reach-owner}
use linux_system_programming.Threads.Bank.Program.{Call, main, Memory, threads}
use linux_system_programming.Threads.Bank.Places.{
  Place, unborn, at_lock, at_print, at_load, at_store, at_sleep, at_finish, at_unlock, at_end, gone,
  prog, pc, is_gone, once-true, take_mutex-free,
}
use linux_system_programming.Threads.Bank.Stages.{
  Stage, creating1, creating2, joining1, joining2, reading, telling, rest, Late, Sim, before_store,
  before_load, before_line, late, over,
}
use linux_system_programming.Threads.Bank.Refinement.{process, Runs-Sim}

abbrev pub CanMove : List (Prog Call ℤ (Unit {0})) → Memory → Type 0
CanMove ps m =
    (ps' : List (Prog Call ℤ (Unit {0}))) × (m' : Memory) × (o : List Line) × Turn threads m ps ps'
      m' o

abbrev CanGo : Prog Call ℤ (Unit {0}) → Memory → Type 0
CanGo p m = (p' : Prog Call ℤ (Unit {0})) × (m' : Memory) × (o : List Line) × Go threads m p p' m' o

CanGo-prog :
    (second : Bool) (money : ℤ) (p : Place) (m : Memory)
    → is_gone p ≡ false
    → m.created second ≡ true
    → (holds (pc p) ≡ 1) ⊎ (m.mutex ≡ false)
    → CanGo (prog second money p) m
unfolding threads
CanGo-prog second money unborn m h b f = (_, _, _, calls (once-true m b))
CanGo-prog second money at_lock m h b (inl e) = absurd (omega arith)
CanGo-prog second money at_lock m h b (inr e) = (_, _, _, calls (take_mutex-free m e))
CanGo-prog second money at_print m h b f = (_, _, _, prints)
CanGo-prog second money at_load m h b f = (_, _, _, calls refl)
CanGo-prog second money (at_store t) m h b f = (_, _, _, calls refl)
CanGo-prog second money at_sleep m h b f = (_, _, _, calls refl)
CanGo-prog second money at_finish m h b f = (_, _, _, prints)
CanGo-prog second money at_unlock m h b f = (_, _, _, calls refl)
CanGo-prog second money at_end m h b f = (_, _, _, calls refl)
CanGo-prog second money gone m h b f = cc

holds-cases : (p : Place) → (holds (pc p) ≡ 0) ⊎ ((holds (pc p) ≡ 1) × (is_gone p ≡ false))
holds-cases unborn = inl refl
holds-cases at_lock = inl refl
holds-cases at_print = inr (refl, refl)
holds-cases at_load = inr (refl, refl)
holds-cases (at_store t) = inr (refl, refl)
holds-cases at_sleep = inr (refl, refl)
holds-cases at_finish = inr (refl, refl)
holds-cases at_unlock = inr (refl, refl)
holds-cases at_end = inl refl
holds-cases gone = inl refl

by_main : {g p q : Prog Call ℤ (Unit {0})} {m : Memory} → CanGo g m → CanMove (g ∷ p ∷ q ∷ []) m
by_main (_, _, _, g) = (_, _, _, this g)

by_first : {g p q : Prog Call ℤ (Unit {0})} {m : Memory} → CanGo p m → CanMove (g ∷ p ∷ q ∷ []) m
by_first (_, _, _, g) = (_, _, _, that (this g))

by_second : {g p q : Prog Call ℤ (Unit {0})} {m : Memory} → CanGo q m → CanMove (g ∷ p ∷ q ∷ []) m
by_second (_, _, _, g) = (_, _, _, that (that (this g)))

module _ (total money1 money2 : ℤ) where
  abbrev all : Prog Call ℤ (Unit {0}) → Place → Place → List (Prog Call ℤ (Unit {0}))
  all g p q = g ∷ prog false money1 p ∷ prog true money2 q ∷ []

  -- Once both are created one of them can move until both are gone.
  one_moves :
      {st : Stage} {p q : Place} {m : Memory} {o : List Line} (g : Prog Call ℤ (Unit {0}))
      → Late total money1 money2 st p q m o
      → m.created false ≡ true
      → m.created true ≡ true
      → (is_gone p ≡ false) ⊎ (is_gone q ≡ false)
      → CanMove (all g p q) m
  one_moves {p = p} {q} {m} g v b1 b2 c = elim (Bool-cases m.mutex) [
    | inr e ↦ elim c [
      | inl d ↦ by_first (CanGo-prog false money1 p m d b1 (inr e))
      | inr d ↦ by_second (CanGo-prog true money2 q m d b2 (inr e))
    ]
    | inl e ↦ elim (holds-cases p) [
      | inr (h, d) ↦ by_first (CanGo-prog false money1 p m d b1 (inl h))
      | inl h ↦ elim (holds-cases q) [
        | inr (h', d) ↦ by_second (CanGo-prog true money2 q m d b2 (inl h'))
        | inl h' ↦ absurd (omega (arith, h, h', Reach-owner v.reach e))
      ]
    ]
  ]

  Late-moves :
      (st : Stage) (p q : Place) (m : Memory) (o : List Line)
      → Late total money1 money2 st p q m o
      → CanMove (all (rest st) p q) m
  unfolding threads
  Late-moves creating1 p q m o v = by_main (_, _, _, calls refl)
  Late-moves creating2 p q m o v = by_main (_, _, _, calls refl)
  Late-moves joining1 p q m o v = elim (Bool-cases (is_gone p)) [
    | inl e ↦ by_main (_, _, _, calls (once-true m (v.end1 ∙ e)))
    | inr e ↦ one_moves (rest joining1) v v.born.0 v.born.1 (inl e)
  ]
  Late-moves joining2 p q m o v = elim (Bool-cases (is_gone q)) [
    | inl e ↦ by_main (_, _, _, calls (once-true m (v.end2 ∙ e)))
    | inr e ↦ one_moves (rest joining2) v v.born.0 v.born.1 (inr e)
  ]
  Late-moves reading p q m o v = by_main (_, _, _, calls refl)
  Late-moves (telling left) p q m o v = by_main (_, _, _, prints)

  Sim-moves :
      {t : Team Call ℤ Memory}
      → Sim total money1 money2 t
      → ended t.threads ≡ none
      → CanMove t.threads t.shared
  unfolding threads main
  Sim-moves before_store h = by_main (_, _, _, calls refl)
  Sim-moves before_load h = by_main (_, _, _, calls refl)
  Sim-moves before_line h = by_main (_, _, _, prints)
  Sim-moves (late v) h = Late-moves _ _ _ _ _ v
  Sim-moves (over x) h = cc

-- No deadlock: in every state that the process can come to, `main` has ended it or one of the three
-- threads can move.
pub Runs-progress :
    (total money1 money2 : ℤ) {t : Team Call ℤ Memory}
    → Runs threads (process total money1 money2) t
    → ended t.threads ≡ none
    → CanMove t.threads t.shared
Runs-progress total money1 money2 r h =
    Sim-moves total money1 money2 (Runs-Sim total money1 money2 r) h
