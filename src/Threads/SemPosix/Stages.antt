-- ===== src/Threads/SemPosix/Stages.antt =====
-- POSIX/sem_posix_example.c: the stages of `main`, and the states of the whole process.
use linux_system_programming.Prelude.{
  ℕ, pos, Bool, true, false, List, [], ◌∷◌, ◌++◌, none, ◌≡◌, refl, sym, ◌∙◌, append-nil, Bool-cases,
  subst, inl, inr,
}
use linux_system_programming.Sys.{Reply, Line, out, Prog, halt, print, ◌>>◌, sys_, exited}
use linux_system_programming.Threads.Team.{Team, Go, prints, Go-answered, Go-blocked}
use linux_system_programming.Threads.SemPosix
use linux_system_programming.Threads.SemPosix.{Reach}
use linux_system_programming.Threads.SemPosix.Program.{
  Call, sem_destroy, pthread_create, pthread_join, main, Shared, with_true, threads,
}
use linux_system_programming.Threads.SemPosix.Places.{
  Place, unborn, gone, prog1, prog2, pc, mem, is_gone, within, served, once-true, once-false,
}
use linux_system_programming.Threads.SemPosix.Order.{Orderly, silence, holder, has}

-- `main` behind sem_init.
pub data Stage : Type 0 where
  creating0 : Stage
  creating1 : Stage
  creating2 : Stage
  joining0 : Stage
  joining1 : Stage
  joining2 : Stage
  destroying : Stage
  telling : Stage

abbrev pub end_line : Line
end_line = out "all threads have ended.\n" []

abbrev from_telling : Prog Call Reply (Unit {0})
from_telling = print end_line (halt (exited (pos 0)))

abbrev from_destroying : Prog Call Reply (Unit {0})
from_destroying = do sys_ sem_destroy; from_telling

abbrev from_joining2 : Prog Call Reply (Unit {0})
from_joining2 = do sys_ (pthread_join 2); from_destroying

abbrev from_joining1 : Prog Call Reply (Unit {0})
from_joining1 = do sys_ (pthread_join 1); from_joining2

abbrev from_joining0 : Prog Call Reply (Unit {0})
from_joining0 = do sys_ (pthread_join 0); from_joining1

abbrev from_creating2 : Prog Call Reply (Unit {0})
from_creating2 = do sys_ (pthread_create 2); from_joining0

abbrev from_creating1 : Prog Call Reply (Unit {0})
from_creating1 = do sys_ (pthread_create 1); from_creating2

abbrev pub rest : Stage → Prog Call Reply (Unit {0})
rest creating0 = do sys_ (pthread_create 0); from_creating1
rest creating1 = from_creating1
rest creating2 = from_creating2
rest joining0 = from_joining0
rest joining1 = from_joining1
rest joining2 = from_joining2
rest destroying = from_destroying
rest telling = from_telling

abbrev pub cold : Shared
cold = record { sem = 0; created = λ _. false; ended = λ _. false }

-- Whom `main` has waited for.
abbrev pub AtStage : Stage → Place → Place → Place → Type 0
AtStage joining1 p q r = is_gone p ≡ true
AtStage joining2 p q r = (is_gone p ≡ true) × (is_gone q ≡ true)
AtStage destroying p q r = (is_gone p ≡ true) × (is_gone q ≡ true) × (is_gone r ≡ true)
AtStage telling p q r = (is_gone p ≡ true) × (is_gone q ≡ true) × (is_gone r ≡ true)
AtStage _ p q r = Unit

-- Whom `main` has created.
abbrev pub AtBirth : Stage → Shared → Type 0
AtBirth creating0 m = Unit
AtBirth creating1 m = m.created 0 ≡ true
AtBirth creating2 m = (m.created 0 ≡ true) × (m.created 1 ≡ true)
AtBirth _ m = (m.created 0 ≡ true) × (m.created 1 ≡ true) × (m.created 2 ≡ true)

-- The output so far: who is inside, and who has left.
pub record Log (p q r : Place) (o : List Line) : Type 0 where
  pub left : List ℕ
  pub orderly : Orderly (holder (within p) (within q) (within r)) left o
  pub left0 : has 0 left ≡ served p
  pub left1 : has 1 left ≡ served q
  pub left2 : has 2 left ≡ served r

-- The state of the process behind sem_init.
pub record Late (st : Stage) (p q r : Place) (m : Shared) (o : List Line) : Type 0 where
  pub reach : Reach (record { mem = mem m; t1 = pc p; t2 = pc q; t3 = pc r })
  pub end0 : m.ended 0 ≡ is_gone p
  pub end1 : m.ended 1 ≡ is_gone q
  pub end2 : m.ended 2 ≡ is_gone r
  pub stage : AtStage st p q r
  pub born : AtBirth st m
  pub log : Log p q r o

-- Everybody has left, one after the other.
pub record Complete (o : List Line) : Type 0 where
  pub left : List ℕ
  pub orderly : Orderly none left o
  pub left0 : has 0 left ≡ true
  pub left1 : has 1 left ≡ true
  pub left2 : has 2 left ≡ true

module _ (fuel : ℕ) where
  abbrev pub team :
      Prog Call Reply (Unit {0})
      → Place
      → Place
      → Place
      → Shared
      → List Line
      → Team Call Reply Shared
  team g p q r m o = record {
    threads = g ∷ prog1 0 p ∷ prog1 1 q ∷ prog2 2 fuel r ∷ [];
    shared = m;
    output = o;
  }

  pub data Sim : Team Call Reply Shared → Type 0 where
    before_init : Sim (team main unborn unborn unborn cold [])
    late :
        {st : Stage} {p q r : Place} {m : Shared} {o : List Line}
        → Late st p q r m o
        → Sim (team (rest st) p q r m o)
    over :
        {m : Shared} {o : List Line}
        → Complete o
        → Sim (team (halt (exited (pos 0))) gone gone gone m (o ++ (end_line ∷ [])))

  pub Late-start : Late creating0 unborn unborn unborn (record cold { sem = 1 }) []
  Late-start = record {
    reach = SemPosix.begin;
    end0 = refl;
    end1 = refl;
    end2 = refl;
    stage = tt;
    born = tt;
    log = record { left = []; orderly = silence; left0 = refl; left1 = refl; left2 = refl };
  }

  -- The next stage of `main`, which may have created a thread.
  Late-to :
      {st : Stage} (st' : Stage) (f : ℕ → Bool) {p q r : Place} {m : Shared} {o : List Line}
      → AtStage st' p q r
      → AtBirth st' (record m { created = f })
      → Late st p q r m o
      → Late st' p q r (record m { created = f }) (o ++ [])
  Late-to st' f {p} {q} {r} {o = o} h b v = record {
    reach = v.reach;
    end0 = v.end0;
    end1 = v.end1;
    end2 = v.end2;
    stage = h;
    born = b;
    log = subst (Log p q r) (sym (append-nil o)) v.log;
  }

  abbrev pub AfterMain :
      Place → Place → Place → List Line → Prog Call Reply (Unit {0}) → Shared → List Line → Type 0
  AfterMain p q r o g m o' = Sim (team g p q r m (o ++ o'))

  gone-is_gone : (p : Place) → is_gone p ≡ true → p ≡ gone
  gone-is_gone gone h = refl
  gone-is_gone p h = cc

  Late-over :
      {p q r : Place} {m : Shared} {o : List Line}
      → Late telling p q r m o
      → Sim (team (halt (exited (pos 0))) p q r m (o ++ (end_line ∷ [])))
  Late-over {p} {q} {r} {o = o} v =
      let (a, b, c) = v.stage in
      let x = gone-is_gone p a in
      let y = gone-is_gone q b in
      let z = gone-is_gone r c in
      let l : Log gone gone gone o = rw (x, y, z) at v.log in
      rw (x, y, z)
        (over (record {
          left = l.left;
          orderly = l.orderly;
          left0 = l.left0;
          left1 = l.left1;
          left2 = l.left2;
        }))

  -- A step of `main`.
  pub Late-main :
      {st : Stage} {p q r : Place} {m m' : Shared} {o o' : List Line}
      {g : Prog Call Reply (Unit {0})}
      → Late st p q r m o
      → Go threads m (rest st) g m' o'
      → Sim (team g p q r m' (o ++ o'))
  unfolding threads
  Late-main {st = creating0} {p} {q} {r} {m} {o = o} v g =
      Go-answered threads (AfterMain p q r o) refl
        (late (Late-to creating1 (with_true 0 m.created) tt refl v)) g
  Late-main {st = creating1} {p} {q} {r} {m} {o = o} v g =
      Go-answered threads (AfterMain p q r o) refl
        (late (Late-to creating2 (with_true 1 m.created) tt (v.born, refl) v)) g
  Late-main {st = creating2} {p} {q} {r} {m} {o = o} v g =
      Go-answered threads (AfterMain p q r o) refl
        (late (Late-to joining0 (with_true 2 m.created) tt (v.born.0, v.born.1, refl) v)) g
  Late-main {st = joining0} {p} {q} {r} {m} {o = o} v g = elim (Bool-cases (m.ended 0)) [
    | inl e ↦
        Go-answered threads (AfterMain p q r o) (once-true m e)
          (late (Late-to joining1 m.created (sym v.end0 ∙ e) v.born v)) g
    | inr e ↦ Go-blocked threads (once-false m e) g
  ]
  Late-main {st = joining1} {p} {q} {r} {m} {o = o} v g = elim (Bool-cases (m.ended 1)) [
    | inl e ↦
        Go-answered threads (AfterMain p q r o) (once-true m e)
          (late (Late-to joining2 m.created (v.stage, sym v.end1 ∙ e) v.born v)) g
    | inr e ↦ Go-blocked threads (once-false m e) g
  ]
  Late-main {st = joining2} {p} {q} {r} {m} {o = o} v g = elim (Bool-cases (m.ended 2)) [
    | inl e ↦
        Go-answered threads (AfterMain p q r o) (once-true m e)
          (late (Late-to destroying m.created (v.stage.0, v.stage.1, sym v.end2 ∙ e) v.born v)) g
    | inr e ↦ Go-blocked threads (once-false m e) g
  ]
  Late-main {st = destroying} {p} {q} {r} {m} {o = o} v g =
      Go-answered threads (AfterMain p q r o) refl
        (late (Late-to telling m.created v.stage v.born v)) g
  Late-main {st = telling} v prints = Late-over v
