-- ===== src/Threads/Bank/Stages.antt =====
-- pthread_example.c: the stages of `main`, and the states of the whole process.
use linux_system_programming.Prelude.{
  ℤ, pos, ◌-ℤ◌, Bool, true, false, List, [], ◌∷◌, ◌++◌, ◌≡◌, refl, sym, ◌∙◌, ap, inl, inr,
  Bool-cases, append-nil,
}
use linux_system_programming.Sys.{
  num, Line, out, Prog, halt, print, ◌>>=◌, ◌>>◌, sys, sys_, printf, exited,
}
use linux_system_programming.Threads.Team.{Team, Go, prints, Go-answered, Go-blocked}
use linux_system_programming.Threads.Bank
use linux_system_programming.Threads.Bank.{Pc, start, finished, System, Move, step1, step2, Reach}
use linux_system_programming.Threads.Bank.Laws.{Reach-both_taken}
use linux_system_programming.Threads.Bank.Program.{
  Call, load, pthread_create, pthread_join, main, Memory, threads, with_true,
}
use linux_system_programming.Threads.Bank.Places.{
  Place, unborn, gone, prog, pc, mem, is_gone, once-true, once-false,
}
use linux_system_programming.Threads.Bank.Order.{Serial}

-- `main` behind its first line.
pub data Stage : Type 0 where
  creating1 : Stage
  creating2 : Stage
  joining1 : Stage
  joining2 : Stage
  reading : Stage
  telling : (left : ℤ) → Stage

abbrev pub opening : ℤ → Line
opening total = out "total money is $%d\n" (num total ∷ [])

abbrev pub closing : ℤ → Line
closing left = out "The remained balance is $%d\n" (num left ∷ [])

abbrev pub from_telling : ℤ → Prog Call ℤ (Unit {0})
from_telling left = print (closing left) (halt (exited (pos 0)))

abbrev pub from_reading : Prog Call ℤ (Unit {0})
from_reading = do left ← sys load; from_telling left

abbrev pub from_joining2 : Prog Call ℤ (Unit {0})
from_joining2 = do sys_ (pthread_join true); from_reading

abbrev pub from_joining1 : Prog Call ℤ (Unit {0})
from_joining1 = do sys_ (pthread_join false); from_joining2

abbrev pub from_creating2 : Prog Call ℤ (Unit {0})
from_creating2 = do sys_ (pthread_create true); from_joining1

abbrev pub rest : Stage → Prog Call ℤ (Unit {0})
rest creating1 = do sys_ (pthread_create false); from_creating2
rest creating2 = from_creating2
rest joining1 = from_joining1
rest joining2 = from_joining2
rest reading = from_reading
rest (telling left) = from_telling left

-- Before the program starts; `total_money` is a global, and so 0.
abbrev pub cold : Memory
cold = record { mutex = false; total_money = pos 0; created = λ _. false; ended = λ _. false }

module _ (total money1 money2 : ℤ) where
  abbrev left_over : ℤ
  left_over = total -ℤ money1 -ℤ money2

  -- What `main` knows at each stage: whom it has waited for, and the balance it has read.
  abbrev pub AtStage : Stage → Place → Place → Type 0
  AtStage joining2 p q = is_gone p ≡ true
  AtStage reading p q = (is_gone p ≡ true) × (is_gone q ≡ true)
  AtStage (telling left) p q = (is_gone p ≡ true) × (is_gone q ≡ true) × (left ≡ left_over)
  AtStage _ p q = Unit

  -- Which threads `main` has created.
  abbrev pub AtBirth : Stage → Memory → Type 0
  AtBirth creating1 m = Unit
  AtBirth creating2 m = m.created false ≡ true
  AtBirth _ m = (m.created false ≡ true) × (m.created true ≡ true)

  -- The state of the process once `main` has printed its first line.
  pub record Late (st : Stage) (p q : Place) (m : Memory) (o : List Line) : Type 0 where
    pub reach : Reach total money1 money2 (record { mem = mem m; thread1 = pc p; thread2 = pc q })
    pub end1 : m.ended false ≡ is_gone p
    pub end2 : m.ended true ≡ is_gone q
    pub stage : AtStage st p q
    pub born : AtBirth st m
    pub text : List Line
    pub prints : o ≡ opening total ∷ text
    pub serial : Serial money1 money2 text p q

  abbrev pub team : Prog Call ℤ (Unit {0}) → Place → Place → Memory → List Line → Team Call ℤ Memory
  team g p q m o = record {
    threads = g ∷ prog false money1 p ∷ prog true money2 q ∷ [];
    shared = m;
    output = o;
  }

  -- The states of the process, from the beginning to the end.
  pub data Sim : Team Call ℤ Memory → Type 0 where
    before_store : Sim (team (main total) unborn unborn cold [])
    before_load : Sim (
        team
          (do t ← sys load; printf "total money is $%d\n" (num t ∷ []); rest creating1)
          unborn
          unborn
          (record cold { total_money = total })
          [])
    before_line : Sim (
        team
          (do printf "total money is $%d\n" (num total ∷ []); rest creating1)
          unborn
          unborn
          (record cold { total_money = total })
          [])
    late :
        {st : Stage} {p q : Place} {m : Memory} {o : List Line}
        → Late st p q m o
        → Sim (team (rest st) p q m o)
    over :
        {m : Memory} {text : List Line}
        → Serial money1 money2 text gone gone
        → Sim (
            team
              (halt (exited (pos 0)))
              gone
              gone
              m
              (opening total ∷ (text ++ (closing left_over ∷ []))))

  pub Late-start :
      Late creating1 unborn unborn (record cold { total_money = total }) (opening total ∷ [])
  Late-start = record {
    reach = Bank.begin;
    end1 = refl;
    end2 = refl;
    stage = tt;
    born = tt;
    text = [];
    prints = refl;
    serial = inl (refl, inl refl);
  }

  Late-to :
      {st : Stage} (st' : Stage) {p q : Place} {m : Memory} {o : List Line}
      → AtStage st' p q
      → AtBirth st' m
      → Late st p q m o
      → Late st' p q m (o ++ [])
  Late-to st' {o = o} h b v = record {
    reach = v.reach;
    end1 = v.end1;
    end2 = v.end2;
    stage = h;
    born = b;
    text = v.text;
    prints = append-nil o ∙ v.prints;
    serial = v.serial;
  }

  -- `main` behind the creation of a thread.
  Late-created :
      {st : Stage} (st' : Stage) (f : Bool → Bool) {p q : Place} {m : Memory} {o : List Line}
      → AtStage st' p q
      → AtBirth st' (record m { created = f })
      → Late st p q m o
      → Late st' p q (record m { created = f }) (o ++ [])
  Late-created st' f {o = o} h b v = record {
    reach = v.reach;
    end1 = v.end1;
    end2 = v.end2;
    stage = h;
    born = b;
    text = v.text;
    prints = append-nil o ∙ v.prints;
    serial = v.serial;
  }

  gone-is_gone : (p : Place) → is_gone p ≡ true → p ≡ gone
  gone-is_gone gone h = refl
  gone-is_gone p h = cc

  abbrev pub AfterMain :
      Place → Place → List Line → Prog Call ℤ (Unit {0}) → Memory → List Line → Type 0
  AfterMain p q o g m o' = Sim (team g p q m (o ++ o'))

  -- What `main` reads behind its joins is the balance with both withdrawals.
  Late-balance :
      {p q : Place} {m : Memory} {o : List Line} → Late reading p q m o → m.total_money ≡ left_over
  Late-balance {p} {q} v =
      let (a, _) =
        Reach-both_taken v.reach (ap pc (gone-is_gone p v.stage.0))
          (ap pc (gone-is_gone q v.stage.1)) in
      a

  Late-over :
      {p q : Place} {m : Memory} {o : List Line} (left : ℤ)
      → Late (telling left) p q m o
      → Sim (team (halt (exited (pos 0))) p q m (o ++ (closing left ∷ [])))
  Late-over {p} {q} left v =
      let (a, b, c) = v.stage in
      let x = gone-is_gone p a in
      let y = gone-is_gone q b in rw (v.prints, x, y, c) (over (rw (x, y) at v.serial))

  -- A step of `main`.
  pub Late-main :
      {st : Stage} {p q : Place} {m m' : Memory} {o o' : List Line} {g : Prog Call ℤ (Unit {0})}
      → Late st p q m o
      → Go threads m (rest st) g m' o'
      → Sim (team g p q m' (o ++ o'))
  unfolding threads
  Late-main {st = creating1} {p} {q} {m} {o = o} v g =
      Go-answered threads (AfterMain p q o) refl
        (late (Late-created creating2 (with_true false m.created) tt refl v)) g
  Late-main {st = creating2} {p} {q} {m} {o = o} v g =
      Go-answered threads (AfterMain p q o) refl
        (late (Late-created joining1 (with_true true m.created) tt (v.born, refl) v)) g
  Late-main {st = joining1} {p} {q} {m} {o = o} v g = elim (Bool-cases (m.ended false)) [
    | inl e ↦
        Go-answered threads (AfterMain p q o) (once-true m e)
          (late (Late-to joining2 (sym v.end1 ∙ e) v.born v)) g
    | inr e ↦ Go-blocked threads (once-false m e) g
  ]
  Late-main {st = joining2} {p} {q} {m} {o = o} v g = elim (Bool-cases (m.ended true)) [
    | inl e ↦
        Go-answered threads (AfterMain p q o) (once-true m e)
          (late (Late-to reading (v.stage, sym v.end2 ∙ e) v.born v)) g
    | inr e ↦ Go-blocked threads (once-false m e) g
  ]
  Late-main {st = reading} {p} {q} {m} {o = o} v g =
      Go-answered threads (AfterMain p q o) refl
        (late (Late-to (telling m.total_money) (v.stage.0, v.stage.1, Late-balance v) v.born v)) g
  Late-main {st = telling left} v prints = Late-over left v
