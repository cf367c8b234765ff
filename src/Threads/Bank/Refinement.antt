-- ===== src/Threads/Bank/Refinement.antt =====
-- pthread_example.c: `main` and its two threads refine the step relation, and what they print.
use linux_system_programming.Prelude.{
  ℤ, pos, ◌-ℤ◌, Bool, true, false, List, [], ◌∷◌, ◌++◌, some, none, ◌≡◌, refl, sym, ◌∙◌, ap, ◌⊎◌,
  inl, inr, arith, subst,
}
use mathlib.Core.Path.{ap₂}
use mathlib.Core.Logic.{⊎_swap}
use mathlib.Core.Option.{some-injective, none-ne-some}
use linux_system_programming.Sys.{Line, Prog, exited, End}
use linux_system_programming.Threads.Team.{
  Team, prints, Go-answered, Go-blocked, Turn, this, that, Runs, begin, later, ended,
}
use linux_system_programming.Threads.Bank
use linux_system_programming.Threads.Bank.{Pc, start, finished, System, Move, step1, step2, Reach}
use linux_system_programming.Threads.Bank.Laws.{Reach-balance}
use linux_system_programming.Threads.Bank.Program.{Call, spawned, main, Memory, threads}
use linux_system_programming.Threads.Bank.Places.{
  Place, unborn, at_lock, at_print, at_load, at_store, at_sleep, at_finish, at_unlock, at_end, gone,
  prog, prog-spawned, said, is_gone, Moved, Go-Moved, withdraw_line, finish_line, once-false,
}
use linux_system_programming.Threads.Bank.Order.{outside, InTurn-step}
use linux_system_programming.Threads.Bank.Stages.{
  Late, Sim, opening, closing, cold, opening, closing, cold, AtStage, AtBirth, Late-start,
  AfterMain, Late-main, creating1, creating2, joining1, joining2, reading, telling, before_store,
  before_load, before_line, late, over, Stage, rest,
}

module _ (total money1 money2 : ℤ) where
  AtStage-kept1 :
      (st : Stage) (p p' q : Place)
      → is_gone p ≡ false
      → AtStage total money1 money2 st p q
      → AtStage total money1 money2 st p' q
  AtStage-kept1 creating1 p p' q h a = tt
  AtStage-kept1 creating2 p p' q h a = tt
  AtStage-kept1 joining1 p p' q h a = tt
  AtStage-kept1 joining2 p p' q h a = cc
  AtStage-kept1 reading p p' q h (a, b) = cc
  AtStage-kept1 (telling left) p p' q h (a, b, c) = cc

  AtStage-kept2 :
      (st : Stage) (p q q' : Place)
      → is_gone q ≡ false
      → AtStage total money1 money2 st p q
      → AtStage total money1 money2 st p q'
  AtStage-kept2 creating1 p q q' h a = tt
  AtStage-kept2 creating2 p q q' h a = tt
  AtStage-kept2 joining1 p q q' h a = tt
  AtStage-kept2 joining2 p q q' h a = a
  AtStage-kept2 reading p q q' h (a, b) = cc
  AtStage-kept2 (telling left) p q q' h (a, b, c) = cc

  AtBirth-kept :
      (st : Stage) (m m' : Memory)
      → ((b : Bool) → m'.created b ≡ m.created b)
      → AtBirth total money1 money2 st m
      → AtBirth total money1 money2 st m'
  AtBirth-kept creating1 m m' h a = tt
  AtBirth-kept creating2 m m' h a = h false ∙ a
  AtBirth-kept joining1 m m' h (a, b) = (h false ∙ a, h true ∙ b)
  AtBirth-kept joining2 m m' h (a, b) = (h false ∙ a, h true ∙ b)
  AtBirth-kept reading m m' h (a, b) = (h false ∙ a, h true ∙ b)
  AtBirth-kept (telling left) m m' h (a, b) = (h false ∙ a, h true ∙ b)

  -- The step relation follows a step of a thread.
  reach1 :
      {m m' : Bank.Memory} {p p' q : Pc}
      → Reach total money1 money2 (record { mem = m; thread1 = p; thread2 = q })
      → ((m' ≡ m) × (p' ≡ p)) ⊎ Move money1 m p m' p'
      → Reach total money1 money2 (record { mem = m'; thread1 = p'; thread2 = q })
  reach1 {q = q} r (inl (a, b)) =
      subst (Reach total money1 money2)
        (ap₂ (λ x y. record { mem = x; thread1 = y; thread2 = q }) (sym a) (sym b)) r
  reach1 r (inr v) = Bank.later r (step1 v)

  reach2 :
      {m m' : Bank.Memory} {p q q' : Pc}
      → Reach total money1 money2 (record { mem = m; thread1 = p; thread2 = q })
      → ((m' ≡ m) × (q' ≡ q)) ⊎ Move money2 m q m' q'
      → Reach total money1 money2 (record { mem = m'; thread1 = p; thread2 = q' })
  reach2 {p = p} r (inl (a, b)) =
      subst (Reach total money1 money2)
        (ap₂ (λ x y. record { mem = x; thread1 = p; thread2 = y }) (sym a) (sym b)) r
  reach2 r (inr v) = Bank.later r (step2 v)

  Late-first :
      {st : Stage} {p q : Place} {m m' : Memory} {o o' : List Line} {g : Prog Call ℤ (Unit {0})}
      → Late total money1 money2 st p q m o
      → (w : Moved false money1 m p g m' o') → Late total money1 money2 st w.place q m' (o ++ o')
  Late-first {st} {p} {q} {m} {m'} {o' = o'} {g} v w = record {
    reach = reach1 v.reach w.move;
    end1 = w.end v.end1;
    end2 = w.other ∙ v.end2;
    stage = AtStage-kept1 st p w.place q w.onward v.stage;
    born = AtBirth-kept st m m' w.creates v.born;
    text = v.text ++ o';
    prints = ap (λ x. x ++ o') v.prints;
    serial =
        InTurn-step false money1 m p q g m' o' w v.text (said true money2 q)
          (Reach-balance v.reach).0 (outside true money2 q) v.serial;
  }

  Late-second :
      {st : Stage} {p q : Place} {m m' : Memory} {o o' : List Line} {g : Prog Call ℤ (Unit {0})}
      → Late total money1 money2 st p q m o
      → (w : Moved true money2 m q g m' o') → Late total money1 money2 st p w.place m' (o ++ o')
  Late-second {st} {p} {q} {m} {m'} {o' = o'} {g} v w = record {
    reach = reach2 v.reach w.move;
    end1 = w.other ∙ v.end1;
    end2 = w.end v.end2;
    stage = AtStage-kept2 st p q w.place w.onward v.stage;
    born = AtBirth-kept st m m' w.creates v.born;
    text = v.text ++ o';
    prints = ap (λ x. x ++ o') v.prints;
    serial = ⊎_swap (
        InTurn-step true money2 m q p g m' o' w v.text (said false money1 p)
          (omega (arith, (Reach-balance v.reach).0)) (outside false money1 p) (⊎_swap v.serial));
  }

  asleep :
      {A : Type 0} (m : Memory) {ps : List (Prog Call ℤ (Unit {0}))} {m' : Memory} {o : List Line}
      → ((b : Bool) → m.created b ≡ false)
      → Turn threads m (prog false money1 unborn ∷ prog true money2 unborn ∷ []) ps m' o
      → A
  unfolding threads
  asleep m h (this g) = Go-blocked threads (once-false m (h false)) g
  asleep m h (that (this g)) = Go-blocked threads (once-false m (h true)) g
  asleep m h (that (that g)) = elim g [ ]

  Sim-step :
      {u : Team Call ℤ Memory} {ps : List (Prog Call ℤ (Unit {0}))} {m : Memory} {o : List Line}
      → Sim total money1 money2 u
      → ended u.threads ≡ none
      → Turn threads u.shared u.threads ps m o
      → Sim total money1 money2 (record { threads = ps; shared = m; output = u.output ++ o })
  unfolding threads main
  Sim-step before_store h (this g) =
      Go-answered threads (AfterMain total money1 money2 unborn unborn []) refl before_load g
  Sim-step before_load h (this g) =
      Go-answered threads (AfterMain total money1 money2 unborn unborn []) refl before_line g
  Sim-step before_line h (this prints) = late (Late-start total money1 money2)
  Sim-step before_store h (that t) = asleep cold (λ b. refl) t
  Sim-step before_load h (that t) = asleep _ (λ b. refl) t
  Sim-step before_line h (that t) = asleep _ (λ b. refl) t
  Sim-step (late v) h (this g) = Late-main total money1 money2 v g
  Sim-step (late {p = p} v) h (that (this g)) =
      let w = Go-Moved false money1 p g in rw w.there (late (Late-first v w))
  Sim-step (late {q = q} v) h (that (that (this g))) =
      let w = Go-Moved true money2 q g in rw w.there (late (Late-second v w))
  Sim-step (late v) h (that (that (that t))) = elim t [ ]
  Sim-step (over x) h t = cc

  abbrev pub process : Team Call ℤ Memory
  process = record {
    threads = main total ∷ spawned false money1 ∷ spawned true money2 ∷ [];
    shared = cold;
    output = [];
  }

  pub Runs-Sim : {t : Team Call ℤ Memory} → Runs threads process t → Sim total money1 money2 t
  Runs-Sim begin = rw (← prog-spawned false money1, ← prog-spawned true money2) before_store
  Runs-Sim (later r h t) = Sim-step (Runs-Sim r) h t

ended-prog :
    (second : Bool) (money : ℤ) (p : Place) (ps : List (Prog Call ℤ (Unit {0})))
    → ended (prog second money p ∷ ps) ≡ ended ps
ended-prog second money unborn ps = refl
ended-prog second money at_lock ps = refl
ended-prog second money at_print ps = refl
ended-prog second money at_load ps = refl
ended-prog second money (at_store t) ps = refl
ended-prog second money at_sleep ps = refl
ended-prog second money at_finish ps = refl
ended-prog second money at_unlock ps = refl
ended-prog second money at_end ps = refl
ended-prog second money gone ps = refl

ended-rest : (st : Stage) (ps : List (Prog Call ℤ (Unit {0}))) → ended (rest st ∷ ps) ≡ ended ps
ended-rest creating1 ps = refl
ended-rest creating2 ps = refl
ended-rest joining1 ps = refl
ended-rest joining2 ps = refl
ended-rest reading ps = refl
ended-rest (telling left) ps = refl

ended-tells :
    (total money1 money2 : ℤ) {t : Team Call ℤ Memory} {e : End}
    → Sim total money1 money2 t
    → ended t.threads ≡ some e
    → (e ≡ exited (pos 0))
      × ((t.output
            ≡ opening total
              ∷ withdraw_line money1
              ∷ finish_line money1
              ∷ withdraw_line money2
              ∷ finish_line money2
              ∷ closing (total -ℤ money1 -ℤ money2)
              ∷ [])
          ⊎ (t.output
              ≡ opening total
                ∷ withdraw_line money2
                ∷ finish_line money2
                ∷ withdraw_line money1
                ∷ finish_line money1
                ∷ closing (total -ℤ money1 -ℤ money2)
                ∷ []))
unfolding main
ended-tells total money1 money2 before_store h = cc
ended-tells total money1 money2 before_load h = cc
ended-tells total money1 money2 before_line h = cc
ended-tells total money1 money2 (late {st} {p} {q} v) h =
    let z = ended-rest st _ ∙ (ended-prog false money1 p _ ∙ ended-prog true money2 q []) in
    absurd (none-ne-some _ (sym z ∙ h))
ended-tells total money1 money2 (over (inl (a, _))) h =
    (sym (some-injective _ _ h), inl (rw a refl))
ended-tells total money1 money2 (over (inr (a, _))) h =
    (sym (some-injective _ _ h), inr (rw a refl))

-- However the threads are scheduled, a process that has ended has returned 0 and told the balance less
-- both withdrawals; and the two lines of one withdrawal stand together, in front of or behind those
-- of the other one.
pub Runs-tells :
    (total money1 money2 : ℤ) {t : Team Call ℤ Memory} {e : End}
    → Runs threads (process total money1 money2) t
    → ended t.threads ≡ some e
    → (e ≡ exited (pos 0))
      × ((t.output
            ≡ opening total
              ∷ withdraw_line money1
              ∷ finish_line money1
              ∷ withdraw_line money2
              ∷ finish_line money2
              ∷ closing (total -ℤ money1 -ℤ money2)
              ∷ [])
          ⊎ (t.output
              ≡ opening total
                ∷ withdraw_line money2
                ∷ finish_line money2
                ∷ withdraw_line money1
                ∷ finish_line money1
                ∷ closing (total -ℤ money1 -ℤ money2)
                ∷ []))
Runs-tells total money1 money2 r h =
    ended-tells total money1 money2 (Runs-Sim total money1 money2 r) h
