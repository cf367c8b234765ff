-- ===== src/Threads/SemPosix/Places.antt =====
-- POSIX/sem_posix_example.c: the places of the threads, and the step relation that they refine.
use linux_system_programming.Prelude.{
  ℕ, zero, suc, Option, subst, ◌==◌, pos, Bool, true, false, List, [], ◌∷◌, some, none, ◌≡◌, refl,
  sym, ◌∙◌, ◌⊎◌, inl, inr, arith,
}
use linux_system_programming.Sys.{Reply, Line, Prog, ret, print, ◌>>◌, sys_}
use linux_system_programming.Threads.Team.{Go, prints, calls, Go-answered}
use linux_system_programming.Threads.SemPosix.{
  Memory, Pc, started, waiting, trying, backing_off, critical, finished,
}
use linux_system_programming.Threads.SemPosix.Laws.{holds}
use linux_system_programming.Threads.SemPosix.Program.{
  Call, sem_init, sem_wait, sem_trywait, sem_post, sem_destroy, pthread_create, pthread_join, sleep,
  begins, ends, wait_line, again_line, enter_line, leave_line, thread_t1, thread_t2, spawned,
  Shared, with_true, value, once, take, threads,
}

-- Those of `thread_t1`, those of `thread_t2`, and those of both.
pub data Place : Type 0 where
  unborn : Place
  at_print : Place
  at_wait : Place
  at_try : (fuel : ℕ) → Place
  at_again : (fuel : ℕ) → Place
  at_nap : (fuel : ℕ) → Place
  at_enter : Place
  at_sleep : Place
  at_leave : Place
  at_post : Place
  at_end : Place
  gone : Place

module _ (tidx : ℕ) where
  abbrev from_end : Prog Call Reply (Unit {0})
  from_end = sys_ (ends tidx)

  abbrev from_post : Prog Call Reply (Unit {0})
  from_post = do sys_ sem_post; from_end

  abbrev from_leave : Prog Call Reply (Unit {0})
  from_leave = print (leave_line tidx) from_post

  abbrev from_sleep : Prog Call Reply (Unit {0})
  from_sleep = do sys_ (sleep 3); from_leave

  abbrev from_enter : Prog Call Reply (Unit {0})
  from_enter = print (enter_line tidx) from_sleep

  abbrev from_wait : Prog Call Reply (Unit {0})
  from_wait = do sys_ sem_wait; from_enter

  abbrev pub from_print : Prog Call Reply (Unit {0})
  from_print = print (wait_line tidx) from_wait

  abbrev pub from_try : ℕ → Prog Call Reply (Unit {0})
  from_try fuel = do thread_t2 fuel tidx; from_end

  abbrev from_nap : ℕ → Prog Call Reply (Unit {0})
  from_nap fuel = do sys_ (sleep 1); from_try fuel

  abbrev from_again : ℕ → Prog Call Reply (Unit {0})
  from_again fuel = print (again_line tidx) (from_nap fuel)

  -- What is left of a thread, `first` being what it does first.
  abbrev pub prog : Prog Call Reply (Unit {0}) → Place → Prog Call Reply (Unit {0})
  prog first unborn = do sys_ (begins tidx); first
  prog first at_print = from_print
  prog first at_wait = from_wait
  prog first (at_try fuel) = from_try fuel
  prog first (at_again fuel) = from_again fuel
  prog first (at_nap fuel) = from_nap fuel
  prog first at_enter = from_enter
  prog first at_sleep = from_sleep
  prog first at_leave = from_leave
  prog first at_post = from_post
  prog first at_end = from_end
  prog first gone = ret tt

  abbrev pub prog1 : Place → Prog Call Reply (Unit {0})
  prog1 = prog from_print

  abbrev pub prog2 : ℕ → Place → Prog Call Reply (Unit {0})
  prog2 fuel = prog (from_try fuel)

  pub prog1-spawned : prog1 unborn ≡ spawned tidx (thread_t1 tidx)
  unfolding thread_t1
  prog1-spawned = refl

  pub prog2-spawned : (fuel : ℕ) → prog2 fuel unborn ≡ spawned tidx (thread_t2 fuel tidx)
  prog2-spawned fuel = refl

-- The places of the step relation, which has no lines and no creation.
abbrev pub pc : Place → Pc
pc unborn = started
pc at_print = waiting
pc at_wait = waiting
pc (at_try fuel) = trying
pc (at_again fuel) = backing_off
pc (at_nap fuel) = backing_off
pc at_enter = critical
pc at_sleep = critical
pc at_leave = critical
pc at_post = critical
pc at_end = finished
pc gone = finished

abbrev pub mem : Shared → Memory
mem s = record { sem = s.sem; over = false }

abbrev pub is_gone : Place → Bool
is_gone gone = true
is_gone _ = false

-- Between its two lines about the critical section, and behind them.
abbrev pub within : Place → Bool
within at_sleep = true
within at_leave = true
within _ = false

abbrev pub served : Place → Bool
served at_post = true
served at_end = true
served gone = true
served _ = false

-- The lines of a step.
pub data Said (tidx : ℕ) (p q : Place) : List Line → Type 0 where
  nothing : within q ≡ within p → served q ≡ served p → Said tidx p q []
  waits : within q ≡ within p → served q ≡ served p → Said tidx p q (wait_line tidx ∷ [])
  retries : within q ≡ within p → served q ≡ served p → Said tidx p q (again_line tidx ∷ [])
  enters :
      holds (pc p) ≡ 1
      → within p ≡ false
      → within q ≡ true
      → served q ≡ served p
      → Said tidx p q (enter_line tidx ∷ [])
  leaves :
      within p ≡ true
      → within q ≡ false
      → served p ≡ false
      → served q ≡ true
      → Said tidx p q (leave_line tidx ∷ [])

-- What a step of a thread does.
pub record Moved (Mv : Memory → Pc → Memory → Pc → Type 0) (tidx : ℕ)
    (first : Prog Call Reply (Unit {0})) (s : Shared) (pl : Place) (p : Prog Call Reply (Unit {0}))
    (s' : Shared) (o : List Line) : Type 0 where
  pub place : Place
  pub there : p ≡ prog tidx first place
  pub said : Said tidx pl place o
  pub move : ((mem s' ≡ mem s) × (pc place ≡ pc pl)) ⊎ Mv (mem s) (pc pl) (mem s') (pc place)
  pub end : s.ended tidx ≡ is_gone pl → s'.ended tidx ≡ is_gone place
  pub others : (j : ℕ) → tidx == j ≡ false → s'.ended j ≡ s.ended j
  pub onward : is_gone pl ≡ false

with_true-same : (i : ℕ) (f : ℕ → Bool) → with_true i f i ≡ true
with_true-same i f = ground arith

with_true-other : (i j : ℕ) (f : ℕ → Bool) → i == j ≡ false → with_true i f j ≡ f j
with_true-other i j f h = rw h refl

pub once-true : {b : Bool} (s : Shared) → b ≡ true → once b s ≡ some (value (pos 0), s)
once-true s e = rw e refl

pub once-false : {b : Bool} (s : Shared) → b ≡ false → once b s ≡ none
once-false s e = rw e refl

module _ (tidx : ℕ) (first : Prog Call Reply (Unit {0}))
    (Mv : Memory → Pc → Memory → Pc → Type 0) where
  -- A step that the step relation does not see.
  abbrev pub still :
      (s s' : Shared) (pl pl' : Place) (o : List Line)
      → mem s' ≡ mem s
      → ((j : ℕ) → s'.ended j ≡ s.ended j)
      → Said tidx pl pl' o
      → pc pl' ≡ pc pl
      → is_gone pl ≡ false
      → is_gone pl' ≡ false
      → Moved Mv tidx first s pl (prog tidx first pl') s' o
  still s s' pl pl' o h f t e g g' = record {
    place = pl';
    there = refl;
    said = t;
    move = inl (h, e);
    end = λ x. f tidx ∙ (x ∙ (g ∙ sym g'));
    others = λ j _. f j;
    onward = g;
  }

  -- A move of the step relation.
  abbrev pub moves :
      (s s' : Shared) (pl pl' : Place) (o : List Line)
      → Mv (mem s) (pc pl) (mem s') (pc pl')
      → ((j : ℕ) → s'.ended j ≡ s.ended j)
      → Said tidx pl pl' o
      → is_gone pl ≡ false
      → is_gone pl' ≡ false
      → Moved Mv tidx first s pl (prog tidx first pl') s' o
  moves s s' pl pl' o v f t g g' = record {
    place = pl';
    there = refl;
    said = t;
    move = inr v;
    end = λ x. f tidx ∙ (x ∙ (g ∙ sym g'));
    others = λ j _. f j;
    onward = g;
  }

  pub Go-end :
      {s s' : Shared} {p : Prog Call Reply (Unit {0})} {o : List Line}
      → Go threads s (prog tidx first at_end) p s' o
      → Moved Mv tidx first s at_end p s' o
  unfolding threads
  Go-end {s} g =
      Go-answered threads (Moved Mv tidx first s at_end) refl
        (record {
          place = gone;
          there = refl;
          said = nothing refl refl;
          move = inl (refl, refl);
          end = λ h. with_true-same tidx s.ended;
          others = λ j h. with_true-other tidx j s.ended h;
          onward = refl;
        })
        g

  pub Go-sleep :
      {s s' : Shared} {p : Prog Call Reply (Unit {0})} {o : List Line}
      → Go threads s (prog tidx first at_sleep) p s' o
      → Moved Mv tidx first s at_sleep p s' o
  unfolding threads
  Go-sleep {s} g =
      Go-answered threads (Moved Mv tidx first s at_sleep) refl
        (still s s at_sleep at_leave [] refl (λ j. refl) (nothing refl refl) refl refl refl) g

-- No call undoes a creation.
abbrev Created : ℕ → Option (Reply × Shared) → Type 0
Created j none = Unit
Created j (some (r, s)) = s.created j ≡ true

once-Created : (b : Bool) (s : Shared) (j : ℕ) → s.created j ≡ true → Created j (once b s)
once-Created true s j h = h
once-Created false s j h = tt

take-Created :
    (n : ℕ) (x : Option (Reply × Shared)) (s : Shared) (j : ℕ)
    → s.created j ≡ true
    → Created j x
    → Created j (take n x s)
take-Created zero x s j h c = c
take-Created (suc n) x s j h c = h

threads-Created : (c : Call) (s : Shared) (j : ℕ) → s.created j ≡ true → Created j (threads c s)
unfolding threads
threads-Created (sem_init v) s j h = h
threads-Created sem_wait s j h = take-Created s.sem none s j h tt
threads-Created sem_trywait s j h = take-Created s.sem _ s j h h
threads-Created sem_post s j h = h
threads-Created sem_destroy s j h = h
threads-Created (sleep n) s j h = h
threads-Created (pthread_create i) s j h = ground arith
threads-Created (pthread_join i) s j h = once-Created (s.ended i) s j h
threads-Created (begins i) s j h = once-Created (s.created i) s j h
threads-Created (ends i) s j h = h

pub Go-Keeps :
    {s s' : Shared} {p p' : Prog Call Reply (Unit {0})} {o : List Line}
    → Go threads s p p' s' o
    → (j : ℕ) → s.created j ≡ true
    → s'.created j ≡ true
Go-Keeps prints j h = h
Go-Keeps {s} (calls {c} e) j h = subst (Created j) e (threads-Created c s j h)
