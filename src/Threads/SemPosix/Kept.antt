-- ===== src/Threads/SemPosix/Kept.antt =====
-- POSIX/sem_posix_example.c: what a step of each thread keeps of the state of the process.
use linux_system_programming.Prelude.{
  ℕ, ◌+◌, ◌≤◌, true, false, List, ◌++◌, ◌≡◌, refl, sym, ◌∙◌, ◌⊎◌, inl, inr, subst, arith,
}
use mathlib.Core.Path.{ap₂}
use linux_system_programming.Sys.{Reply, Line, Prog}
use linux_system_programming.Threads.SemPosix
use linux_system_programming.Threads.SemPosix.{Memory, Pc, Move1, Move2, step1, step2, step3, Reach}
use linux_system_programming.Threads.SemPosix.Laws.{holds, Reach-one_holder}
use linux_system_programming.Threads.SemPosix.Program.{Call, Shared}
use linux_system_programming.Threads.SemPosix.Places.{
  Place, from_print, from_try, pc, is_gone, within, Moved,
}
use linux_system_programming.Threads.SemPosix.Order.{holder, Said-Kept, within-holds, within-one}
use linux_system_programming.Threads.SemPosix.Stages.{
  Stage, creating0, creating1, creating2, joining0, joining1, joining2, destroying, telling,
  AtStage, AtBirth, Log, Late,
}

-- A step of a thread creates nobody, and undoes no creation.
abbrev pub Keeps : Shared → Shared → Type 0
Keeps m m' = (j : ℕ) → m.created j ≡ true → m'.created j ≡ true

AtBirth-kept : (st : Stage) (m m' : Shared) → Keeps m m' → AtBirth st m → AtBirth st m'
AtBirth-kept creating0 m m' k a = tt
AtBirth-kept creating1 m m' k a = k 0 a
AtBirth-kept creating2 m m' k (a, b) = (k 0 a, k 1 b)
AtBirth-kept joining0 m m' k (a, b, c) = (k 0 a, k 1 b, k 2 c)
AtBirth-kept joining1 m m' k (a, b, c) = (k 0 a, k 1 b, k 2 c)
AtBirth-kept joining2 m m' k (a, b, c) = (k 0 a, k 1 b, k 2 c)
AtBirth-kept destroying m m' k (a, b, c) = (k 0 a, k 1 b, k 2 c)
AtBirth-kept telling m m' k (a, b, c) = (k 0 a, k 1 b, k 2 c)

AtStage-kept0 :
    (st : Stage) (p q r p' : Place) → is_gone p ≡ false → AtStage st p q r → AtStage st p' q r
AtStage-kept0 creating0 p q r p' h a = tt
AtStage-kept0 creating1 p q r p' h a = tt
AtStage-kept0 creating2 p q r p' h a = tt
AtStage-kept0 joining0 p q r p' h a = tt
AtStage-kept0 joining1 p q r p' h a = cc
AtStage-kept0 joining2 p q r p' h (a, b) = cc
AtStage-kept0 destroying p q r p' h (a, b, c) = cc
AtStage-kept0 telling p q r p' h (a, b, c) = cc

reach0 :
    {m m' : Memory} {p q r p' : Pc}
    → Reach (record { mem = m; t1 = p; t2 = q; t3 = r })
    → m.over ≡ false
    → ((m' ≡ m) × (p' ≡ p)) ⊎ Move1 m p m' p'
    → Reach (record { mem = m'; t1 = p'; t2 = q; t3 = r })
reach0 {p = p} {q} {r} x e (inl (a, b)) =
    subst Reach (ap₂ (λ y z. record { mem = y; t1 = z; t2 = q; t3 = r }) (sym a) (sym b)) x
reach0 x e (inr v) = SemPosix.later x (step1 e v)

-- Only thread 0 moves, and where it has the resource nobody else is inside.
quiet0 :
    (p q r : Place)
    → holds (pc p) + holds (pc q) + holds (pc r) ≤ 1
    → holds (pc p) ≡ 1
    → (within q ≡ false) × (within r ≡ false)
quiet0 p q r h e = (within-holds q (omega (arith, h, e)), within-holds r (omega (arith, h, e)))

Log0 :
    {p q r : Place} {m m' : Shared} {o o' : List Line} {g : Prog Call Reply (Unit {0})}
    → Log p q r o
    → holds (pc p) + holds (pc q) + holds (pc r) ≤ 1
    → (w : Moved Move1 0 (from_print 0) m p g m' o') → Log w.place q r (o ++ o')
Log0 {p} {q} {r} l h w =
    let k =
      Said-Kept {h' = holder (within w.place) (within q) (within r)} w.said l.orderly l.left0
        (λ e. rw e refl) (λ a b c. let (x, y) = quiet0 p q r h a in (rw (b, x, y) refl, rw c refl))
        (λ a b. let (x, y) = quiet0 p q r h (within-one p a) in (rw a refl, rw (b, x, y) refl)) in
    record {
      left = k.left;
      orderly = k.orderly;
      left0 = k.mine;
      left1 = k.others 1 refl ∙ l.left1;
      left2 = k.others 2 refl ∙ l.left2;
    }

pub Late0 :
    {st : Stage} {p q r : Place} {m m' : Shared} {o o' : List Line} {g : Prog Call Reply (Unit {0})}
    → Late st p q r m o
    → Keeps m m'
    → (w : Moved Move1 0 (from_print 0) m p g m' o') → Late st w.place q r m' (o ++ o')
Late0 {st} {p} {q} {r} {m} {m'} v k w = record {
  reach = reach0 v.reach refl w.move;
  end0 = w.end v.end0;
  end1 = w.others 1 refl ∙ v.end1;
  end2 = w.others 2 refl ∙ v.end2;
  stage = AtStage-kept0 st p q r w.place w.onward v.stage;
  born = AtBirth-kept st m m' k v.born;
  log = Log0 v.log (Reach-one_holder v.reach).1 w;
}

AtStage-kept1 :
    (st : Stage) (p q r q' : Place) → is_gone q ≡ false → AtStage st p q r → AtStage st p q' r
AtStage-kept1 creating0 p q r q' h a = tt
AtStage-kept1 creating1 p q r q' h a = tt
AtStage-kept1 creating2 p q r q' h a = tt
AtStage-kept1 joining0 p q r q' h a = tt
AtStage-kept1 joining1 p q r q' h a = a
AtStage-kept1 joining2 p q r q' h (a, b) = cc
AtStage-kept1 destroying p q r q' h (a, b, c) = cc
AtStage-kept1 telling p q r q' h (a, b, c) = cc

reach1 :
    {m m' : Memory} {p q r q' : Pc}
    → Reach (record { mem = m; t1 = p; t2 = q; t3 = r })
    → m.over ≡ false
    → ((m' ≡ m) × (q' ≡ q)) ⊎ Move1 m q m' q'
    → Reach (record { mem = m'; t1 = p; t2 = q'; t3 = r })
reach1 {p = p} {q} {r} x e (inl (a, b)) =
    subst Reach (ap₂ (λ y z. record { mem = y; t1 = p; t2 = z; t3 = r }) (sym a) (sym b)) x
reach1 x e (inr v) = SemPosix.later x (step2 e v)

-- Only thread 1 moves, and where it has the resource nobody else is inside.
quiet1 :
    (p q r : Place)
    → holds (pc p) + holds (pc q) + holds (pc r) ≤ 1
    → holds (pc q) ≡ 1
    → (within p ≡ false) × (within r ≡ false)
quiet1 p q r h e = (within-holds p (omega (arith, h, e)), within-holds r (omega (arith, h, e)))

Log1 :
    {p q r : Place} {m m' : Shared} {o o' : List Line} {g : Prog Call Reply (Unit {0})}
    → Log p q r o
    → holds (pc p) + holds (pc q) + holds (pc r) ≤ 1
    → (w : Moved Move1 1 (from_print 1) m q g m' o') → Log p w.place r (o ++ o')
Log1 {p} {q} {r} l h w =
    let k =
      Said-Kept {h' = holder (within p) (within w.place) (within r)} w.said l.orderly l.left1
        (λ e. rw e refl)
        (λ a b c. let (x, y) = quiet1 p q r h a in (rw (b, x, y) refl, rw (x, c) refl))
        (λ a b.
          let (x, y) = quiet1 p q r h (within-one q a) in (rw (x, a) refl, rw (b, x, y) refl)) in
    record {
      left = k.left;
      orderly = k.orderly;
      left0 = k.others 0 refl ∙ l.left0;
      left1 = k.mine;
      left2 = k.others 2 refl ∙ l.left2;
    }

pub Late1 :
    {st : Stage} {p q r : Place} {m m' : Shared} {o o' : List Line} {g : Prog Call Reply (Unit {0})}
    → Late st p q r m o
    → Keeps m m'
    → (w : Moved Move1 1 (from_print 1) m q g m' o') → Late st p w.place r m' (o ++ o')
Late1 {st} {p} {q} {r} {m} {m'} v k w = record {
  reach = reach1 v.reach refl w.move;
  end0 = w.others 0 refl ∙ v.end0;
  end1 = w.end v.end1;
  end2 = w.others 2 refl ∙ v.end2;
  stage = AtStage-kept1 st p q r w.place w.onward v.stage;
  born = AtBirth-kept st m m' k v.born;
  log = Log1 v.log (Reach-one_holder v.reach).1 w;
}

AtStage-kept2 :
    (st : Stage) (p q r r' : Place) → is_gone r ≡ false → AtStage st p q r → AtStage st p q r'
AtStage-kept2 creating0 p q r r' h a = tt
AtStage-kept2 creating1 p q r r' h a = tt
AtStage-kept2 creating2 p q r r' h a = tt
AtStage-kept2 joining0 p q r r' h a = tt
AtStage-kept2 joining1 p q r r' h a = a
AtStage-kept2 joining2 p q r r' h a = a
AtStage-kept2 destroying p q r r' h (a, b, c) = cc
AtStage-kept2 telling p q r r' h (a, b, c) = cc

reach2 :
    {m m' : Memory} {p q r r' : Pc}
    → Reach (record { mem = m; t1 = p; t2 = q; t3 = r })
    → m.over ≡ false
    → ((m' ≡ m) × (r' ≡ r)) ⊎ Move2 m r m' r'
    → Reach (record { mem = m'; t1 = p; t2 = q; t3 = r' })
reach2 {p = p} {q} {r} x e (inl (a, b)) =
    subst Reach (ap₂ (λ y z. record { mem = y; t1 = p; t2 = q; t3 = z }) (sym a) (sym b)) x
reach2 x e (inr v) = SemPosix.later x (step3 e v)

-- Only thread 2 moves, and where it has the resource nobody else is inside.
quiet2 :
    (p q r : Place)
    → holds (pc p) + holds (pc q) + holds (pc r) ≤ 1
    → holds (pc r) ≡ 1
    → (within p ≡ false) × (within q ≡ false)
quiet2 p q r h e = (within-holds p (omega (arith, h, e)), within-holds q (omega (arith, h, e)))

Log2 :
    (fuel : ℕ) {p q r : Place} {m m' : Shared} {o o' : List Line} {g : Prog Call Reply (Unit {0})}
    → Log p q r o
    → holds (pc p) + holds (pc q) + holds (pc r) ≤ 1
    → (w : Moved Move2 2 (from_try 2 fuel) m r g m' o') → Log p q w.place (o ++ o')
Log2 fuel {p} {q} {r} l h w =
    let k =
      Said-Kept {h' = holder (within p) (within q) (within w.place)} w.said l.orderly l.left2
        (λ e. rw e refl)
        (λ a b c. let (x, y) = quiet2 p q r h a in (rw (b, x, y) refl, rw (c, x, y) refl))
        (λ a b.
          let (x, y) = quiet2 p q r h (within-one r a) in (rw (a, x, y) refl, rw (b, x, y) refl)) in
    record {
      left = k.left;
      orderly = k.orderly;
      left0 = k.others 0 refl ∙ l.left0;
      left1 = k.others 1 refl ∙ l.left1;
      left2 = k.mine;
    }

pub Late2 :
    (fuel : ℕ) {st : Stage} {p q r : Place} {m m' : Shared} {o o' : List Line}
    {g : Prog Call Reply (Unit {0})}
    → Late st p q r m o
    → Keeps m m'
    → (w : Moved Move2 2 (from_try 2 fuel) m r g m' o') → Late st p q w.place m' (o ++ o')
Late2 fuel {st} {p} {q} {r} {m} {m'} v k w = record {
  reach = reach2 v.reach refl w.move;
  end0 = w.others 0 refl ∙ v.end0;
  end1 = w.others 1 refl ∙ v.end1;
  end2 = w.end v.end2;
  stage = AtStage-kept2 st p q r w.place w.onward v.stage;
  born = AtBirth-kept st m m' k v.born;
  log = Log2 fuel v.log (Reach-one_holder v.reach).1 w;
}
