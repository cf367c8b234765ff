-- ===== src/Threads/SemPosix/Laws.antt =====
-- POSIX/sem_posix_example.c: one holder at a time, no deadlock, and the semaphore given back.
use linux_system_programming.Prelude.{◌∙◌, ℕ, ◌+◌, ◌≤◌, false, ◌≡◌, refl, ap, ◌⊎◌, inl, inr, arith}
use native.Mathlib.Decide.{dec_lt}
use linux_system_programming.Threads.SemPosix.{
  Memory, Pc, started, waiting, trying, backing_off, critical, finished, Move1, announce, wait,
  post, Move2, enter, acquire, again, retry, fail, post2, System, Step, step1, step2, step3, Reach,
  begin, later,
}

abbrev pub holds : Pc → ℕ
holds critical = 1
holds _ = 0

-- A place of `thread_t1`, and one of `thread_t2`.
abbrev pub IsPlace1 : Pc → Type 0
IsPlace1 trying = ⊥
IsPlace1 backing_off = ⊥
IsPlace1 _ = Unit

abbrev pub IsPlace2 : Pc → Type 0
IsPlace2 waiting = ⊥
IsPlace2 _ = Unit

record Inv (s : System) : Type 0 where
  count : s.mem.sem + holds s.t1 + holds s.t2 + holds s.t3 ≡ 1
  place1 : IsPlace1 s.t1
  place2 : IsPlace1 s.t2
  place3 : IsPlace2 s.t3

-- A move gives to the semaphore what it takes from the thread, and the reverse.
Move1-holds : {m m' : Memory} {p p' : Pc} → Move1 m p m' p' → m.sem + holds p ≡ m'.sem + holds p'
Move1-holds announce = refl
Move1-holds (wait h) = omega arith
Move1-holds post = omega arith

Move2-holds : {m m' : Memory} {p p' : Pc} → Move2 m p m' p' → m.sem + holds p ≡ m'.sem + holds p'
Move2-holds enter = refl
Move2-holds (acquire h) = omega arith
Move2-holds (again h) = refl
Move2-holds retry = refl
Move2-holds fail = refl
Move2-holds post2 = omega arith

Move1-place : {m m' : Memory} {p p' : Pc} → Move1 m p m' p' → IsPlace1 p'
Move1-place announce = tt
Move1-place (wait h) = tt
Move1-place post = tt

Move2-place : {m m' : Memory} {p p' : Pc} → Move2 m p m' p' → IsPlace2 p'
Move2-place enter = tt
Move2-place (acquire h) = tt
Move2-place (again h) = tt
Move2-place retry = tt
Move2-place fail = tt
Move2-place post2 = tt

Step-Inv : {s t : System} → Step s t → Inv s → Inv t
Step-Inv (step1 r mv) v = record {
  count = omega (arith, v.count, Move1-holds mv);
  place1 = Move1-place mv;
  place2 = v.place2;
  place3 = v.place3;
}
Step-Inv (step2 r mv) v = record {
  count = omega (arith, v.count, Move1-holds mv);
  place1 = v.place1;
  place2 = Move1-place mv;
  place3 = v.place3;
}
Step-Inv (step3 r mv) v = record {
  count = omega (arith, v.count, Move2-holds mv);
  place1 = v.place1;
  place2 = v.place2;
  place3 = Move2-place mv;
}

Reach-Inv : {s : System} → Reach s → Inv s
Reach-Inv begin = record { count = refl; place1 = tt; place2 = tt; place3 = tt }
Reach-Inv (later r st) = Step-Inv st (Reach-Inv r)

-- In every interleaving the semaphore's value and the threads in their critical section make 1
-- together, so at most one thread is in its critical section.
pub Reach-one_holder :
    {s : System}
    → Reach s
    → (s.mem.sem + holds s.t1 + holds s.t2 + holds s.t3 ≡ 1)
      × (holds s.t1 + holds s.t2 + holds s.t3 ≤ 1)
Reach-one_holder r = let v = Reach-Inv r in (v.count, omega (arith, v.count))

-- A thread of `thread_t1` that cannot move has finished, or waits while the value is 0.
data Ready1 (m : Memory) (p : Pc) : Type 0 where
  ended : p ≡ finished → Ready1 m p
  waits : m.sem ≡ 0 → holds p ≡ 0 → Ready1 m p
  moves : {m' : Memory} {p' : Pc} → Move1 m p m' p' → m'.over ≡ m.over → Ready1 m p

ready1 : (m : Memory) (p : Pc) → IsPlace1 p → Ready1 m p
ready1 m started h = moves announce refl
ready1 m waiting h = elim (dec_lt 0 m.sem) [
  | yes l ↦ moves (wait l) refl
  | no l ↦ waits (omega arith) refl
]
ready1 m trying h = absurd h
ready1 m backing_off h = absurd h
ready1 m critical h = moves post refl
ready1 m finished h = ended refl

-- The trying thread can always move until it has finished.
ready2 :
    (m : Memory) (p : Pc)
    → IsPlace2 p
    → (p ≡ finished) ⊎ ((m' : Memory) × (p' : Pc) × Move2 m p m' p' × (m'.over ≡ m.over))
ready2 m started h = inr (_, _, enter, refl)
ready2 m waiting h = absurd h
ready2 m trying h = elim (dec_lt 0 m.sem) [
  | yes l ↦ inr (_, _, acquire l, refl)
  | no l ↦ inr (_, _, again (omega arith), refl)
]
ready2 m backing_off h = inr (_, _, retry, refl)
ready2 m critical h = inr (_, _, post2, refl)
ready2 m finished h = inl refl

some-Step :
    (s : System)
    → s.mem.over ≡ false
    → s.mem.sem + holds s.t1 + holds s.t2 + holds s.t3 ≡ 1
    → Ready1 s.mem s.t1
    → Ready1 s.mem s.t2
    → (s.t3 ≡ finished)
      ⊎ ((m' : Memory) × (p' : Pc) × Move2 s.mem s.t3 m' p' × (m'.over ≡ s.mem.over))
    → ((s.t1 ≡ finished) × (s.t2 ≡ finished) × (s.t3 ≡ finished))
      ⊎ ((t : System) × Step s t × (t.mem.over ≡ false))
some-Step s r c (moves mv o) _ _ = inr (_, step1 r mv, o ∙ r)
some-Step s r c _ (moves mv o) _ = inr (_, step2 r mv, o ∙ r)
some-Step s r c _ _ (inr (m, p, mv, o)) = inr (_, step3 r mv, o ∙ r)
some-Step s r c (ended a) (ended b) (inl d) = inl (a, b, d)
some-Step s r c (ended a) (waits z o) (inl d) = absurd (omega (arith, ap holds a, ap holds d))
some-Step s r c (waits z o) (ended b) (inl d) = absurd (omega (arith, ap holds b, ap holds d))
some-Step s r c (waits z o) (waits _ o') (inl d) = absurd (omega (arith, ap holds d))

-- No deadlock: in every reachable state in which the process runs, either all three threads have
-- finished or one can move, by a step that does not end the process.
pub Reach-no_deadlock :
    {s : System}
    → Reach s
    → s.mem.over ≡ false
    → ((s.t1 ≡ finished) × (s.t2 ≡ finished) × (s.t3 ≡ finished))
      ⊎ ((t : System) × Step s t × (t.mem.over ≡ false))
Reach-no_deadlock {s} r running =
    let v = Reach-Inv r in
    some-Step s running v.count (ready1 s.mem s.t1 v.place1) (ready1 s.mem s.t2 v.place2)
      (ready2 s.mem s.t3 v.place3)

-- When all three threads have finished, as the joins of `main` wait for, the semaphore is back at
-- its first value.
pub Reach-returned :
    {s : System} → Reach s → s.t1 ≡ finished → s.t2 ≡ finished → s.t3 ≡ finished → s.mem.sem ≡ 1
Reach-returned r a b c =
    let v = Reach-Inv r in omega (arith, v.count, ap holds a, ap holds b, ap holds c)

-- Each thread is at a place of its function.
pub Reach-places : {s : System} → Reach s → IsPlace1 s.t1 × IsPlace1 s.t2 × IsPlace2 s.t3
Reach-places r = let v = Reach-Inv r in (v.place1, v.place2, v.place3)
