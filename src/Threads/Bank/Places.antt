-- ===== src/Threads/Bank/Places.antt =====
-- pthread_example.c: the places of a thread in `withdrawal`, and the step relation that they refine.
use linux_system_programming.Prelude.{
  ℤ, pos, ◌-ℤ◌, Bool, true, false, not, List, [], ◌∷◌, ◌++◌, some, none, ◌≡◌, refl, ◌∙◌, ◌⊎◌, inl,
  inr, Bool-cases,
}
use linux_system_programming.Sys.{num, Line, out, Prog, ret, print, ◌>>=◌, ◌>>◌, sys, sys_}
use linux_system_programming.Threads.Team.{Go, prints, Go-answered, Go-blocked}
use linux_system_programming.Threads.Bank
use linux_system_programming.Threads.Bank.{
  Pc, start, locked, got, stored, finished, Move, lock, read, subtract, unlock,
}
use linux_system_programming.Threads.Bank.Laws.{holds}
use linux_system_programming.Threads.Bank.Program.{
  Call, pthread_mutex_lock, pthread_mutex_unlock, load, store, sleep, begins, ends, withdrawal,
  spawned, Memory, threads, with_true, once, take_mutex,
}

pub data Place : Type 0 where
  unborn : Place
  at_lock : Place
  at_print : Place
  at_load : Place
  at_store : (total : ℤ) → Place
  at_sleep : Place
  at_finish : Place
  at_unlock : Place
  at_end : Place
  gone : Place

abbrev pub withdraw_line : ℤ → Line
withdraw_line money = out "withdraw $%d from total balance\n" (num money ∷ [])

abbrev pub finish_line : ℤ → Line
finish_line money = out "calculation finish. (withdraw $%d)\n" (num money ∷ [])

module _ (second : Bool) (money : ℤ) where
  abbrev from_end : Prog Call ℤ (Unit {0})
  from_end = sys_ (ends second)

  abbrev from_unlock : Prog Call ℤ (Unit {0})
  from_unlock = do sys_ pthread_mutex_unlock; from_end

  abbrev from_finish : Prog Call ℤ (Unit {0})
  from_finish = print (finish_line money) from_unlock

  abbrev from_sleep : Prog Call ℤ (Unit {0})
  from_sleep = do sys_ (sleep 3); from_finish

  abbrev from_store : ℤ → Prog Call ℤ (Unit {0})
  from_store total = do sys_ (store (total -ℤ money)); from_sleep

  abbrev from_load : Prog Call ℤ (Unit {0})
  from_load = do total ← sys load; from_store total

  abbrev from_print : Prog Call ℤ (Unit {0})
  from_print = print (withdraw_line money) from_load

  abbrev from_lock : Prog Call ℤ (Unit {0})
  from_lock = do sys_ pthread_mutex_lock; from_print

  -- What is left of the thread.
  abbrev pub prog : Place → Prog Call ℤ (Unit {0})
  prog unborn = do sys_ (begins second); from_lock
  prog at_lock = from_lock
  prog at_print = from_print
  prog at_load = from_load
  prog (at_store total) = from_store total
  prog at_sleep = from_sleep
  prog at_finish = from_finish
  prog at_unlock = from_unlock
  prog at_end = from_end
  prog gone = ret tt

  pub prog-spawned : prog unborn ≡ spawned second money
  unfolding withdrawal
  prog-spawned = refl

  -- What it has printed.
  abbrev pub said : Place → List Line
  said unborn = []
  said at_lock = []
  said at_print = []
  said at_load = withdraw_line money ∷ []
  said (at_store _) = withdraw_line money ∷ []
  said at_sleep = withdraw_line money ∷ []
  said at_finish = withdraw_line money ∷ []
  said at_unlock = withdraw_line money ∷ finish_line money ∷ []
  said at_end = withdraw_line money ∷ finish_line money ∷ []
  said gone = withdraw_line money ∷ finish_line money ∷ []

-- The places of the step relation, which has no lines and no creation.
abbrev pub pc : Place → Pc
pc unborn = start
pc at_lock = start
pc at_print = locked
pc at_load = locked
pc (at_store total) = got total
pc at_sleep = stored
pc at_finish = stored
pc at_unlock = stored
pc at_end = finished
pc gone = finished

abbrev pub mem : Memory → Bank.Memory
mem m = record { mutex = m.mutex; total_money = m.total_money }

abbrev pub is_gone : Place → Bool
is_gone gone = true
is_gone _ = false

-- What a step of a thread does: it comes to a place, its lines are said, the step relation makes the
-- same move or none, and the thread has ended where it is gone; nothing changes for the other one.
pub record Moved (second : Bool) (money : ℤ) (m : Memory) (pl : Place) (p : Prog Call ℤ (Unit {0}))
    (m' : Memory) (o : List Line) : Type 0 where
  pub place : Place
  pub there : p ≡ prog second money place
  pub lines : said second money pl ++ o ≡ said second money place
  pub move :
      ((mem m' ≡ mem m) × (pc place ≡ pc pl)) ⊎ Move money (mem m) (pc pl) (mem m') (pc place)
  pub end : m.ended second ≡ is_gone pl → m'.ended second ≡ is_gone place
  pub other : m'.ended (not second) ≡ m.ended (not second)
  pub creates : (b : Bool) → m'.created b ≡ m.created b
  pub onward : is_gone pl ≡ false
  pub quiet : pc pl ≡ finished → (o ≡ []) × (pc place ≡ finished)
  pub loud : (o ≡ []) ⊎ (holds (pc pl) ≡ 1)

-- A step that the step relation does not see, to a place of the same kind.
abbrev still :
    (second : Bool) (money : ℤ) (m : Memory) (pl pl' : Place) (o : List Line)
    → said second money pl ++ o ≡ said second money pl'
    → pc pl' ≡ pc pl
    → is_gone pl ≡ is_gone pl'
    → is_gone pl ≡ false
    → (o ≡ []) ⊎ (holds (pc pl) ≡ 1)
    → (pc pl ≡ finished → o ≡ [])
    → Moved second money m pl (prog second money pl') m o
still second money m pl pl' o s e g n l q = record {
  place = pl';
  there = refl;
  lines = s;
  move = inl (refl, e);
  end = λ h. h ∙ g;
  other = refl;
  creates = λ b. refl;
  onward = n;
  quiet = λ h. (q h, e ∙ h);
  loud = l;
}

-- A move of the step relation.
abbrev moves :
    (second : Bool) (money : ℤ) (m m' : Memory) (pl pl' : Place)
    → said second money pl ++ [] ≡ said second money pl'
    → Move money (mem m) (pc pl) (mem m') (pc pl')
    → is_gone pl ≡ is_gone pl'
    → is_gone pl ≡ false
    → ((b : Bool) → m'.ended b ≡ m.ended b)
    → ((b : Bool) → m'.created b ≡ m.created b)
    → ¬ (pc pl ≡ finished)
    → Moved second money m pl (prog second money pl') m' []
moves second money m m' pl pl' s v g n f c q = record {
  place = pl';
  there = refl;
  lines = s;
  move = inr v;
  end = λ h. f second ∙ (h ∙ g);
  other = f (not second);
  creates = c;
  onward = n;
  quiet = λ h. absurd (q h);
  loud = inl refl;
}

pub once-true : {b : Bool} (m : Memory) → b ≡ true → once b m ≡ some (pos 0, m)
once-true m e = rw e refl

pub once-false : {b : Bool} (m : Memory) → b ≡ false → once b m ≡ none
once-false m e = rw e refl

pub take_mutex-free :
    {b : Bool} (m : Memory) → b ≡ false → take_mutex b m ≡ some (pos 0, record m { mutex = true })
take_mutex-free m e = rw e refl

take_mutex-held : {b : Bool} (m : Memory) → b ≡ true → take_mutex b m ≡ none
take_mutex-held m e = rw e refl

with_true-same : (b : Bool) (f : Bool → Bool) → with_true b f b ≡ true
with_true-same true f = refl
with_true-same false f = refl

with_true-not : (b : Bool) (f : Bool → Bool) → with_true b f (not b) ≡ f (not b)
with_true-not true f = refl
with_true-not false f = refl

pub Go-Moved :
    (second : Bool) (money : ℤ) (pl : Place) {m m' : Memory} {p : Prog Call ℤ (Unit {0})}
    {o : List Line}
    → Go threads m (prog second money pl) p m' o
    → Moved second money m pl p m' o
unfolding threads
Go-Moved second money unborn {m} g = elim (Bool-cases (m.created second)) [
  | inl e ↦
      Go-answered threads (Moved second money m unborn) (once-true m e)
        (still second money m unborn at_lock [] refl refl refl refl (inl refl) (λ x. refl)) g
  | inr e ↦ Go-blocked threads (once-false m e) g
]
Go-Moved second money at_lock {m} g = elim (Bool-cases m.mutex) [
  | inl e ↦ Go-blocked threads (take_mutex-held m e) g
  | inr e ↦
      Go-answered threads (Moved second money m at_lock) (take_mutex-free m e)
        (moves second money m (record m { mutex = true }) at_lock at_print refl (lock e) refl refl
          (λ b. refl) (λ b. refl) (λ x. cc))
        g
]
Go-Moved second money at_print {m} prints =
    still second money m at_print at_load _ refl refl refl refl (inr refl) (λ x. cc)
Go-Moved second money at_load {m} g =
    Go-answered threads (Moved second money m at_load) refl
      (moves second money m m at_load (at_store m.total_money) refl read refl refl (λ b. refl)
        (λ b. refl) (λ x. cc))
      g
Go-Moved second money (at_store t) {m} g =
    Go-answered threads (Moved second money m (at_store t)) refl
      (moves second money m (record m { total_money = t -ℤ money }) (at_store t) at_sleep refl
        subtract refl refl (λ b. refl) (λ b. refl) (λ x. cc))
      g
Go-Moved second money at_sleep {m} g =
    Go-answered threads (Moved second money m at_sleep) refl
      (still second money m at_sleep at_finish [] refl refl refl refl (inl refl) (λ x. refl)) g
Go-Moved second money at_finish {m} prints =
    still second money m at_finish at_unlock _ refl refl refl refl (inr refl) (λ x. cc)
Go-Moved second money at_unlock {m} g =
    Go-answered threads (Moved second money m at_unlock) refl
      (moves second money m (record m { mutex = false }) at_unlock at_end refl unlock refl refl
        (λ b. refl) (λ b. refl) (λ x. cc))
      g
Go-Moved second money at_end {m} g =
    Go-answered threads (Moved second money m at_end) refl
      (record {
        place = gone;
        there = refl;
        lines = refl;
        move = inl (refl, refl);
        end = λ h. with_true-same second m.ended;
        other = with_true-not second m.ended;
        creates = λ b. refl;
        onward = refl;
        quiet = λ h. (refl, refl);
        loud = inl refl;
      })
      g
Go-Moved second money gone g = elim g [ ]
