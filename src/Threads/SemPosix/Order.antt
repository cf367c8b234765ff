-- ===== src/Threads/SemPosix/Order.antt =====
-- POSIX/sem_posix_example.c: outputs in which the critical sections do not overlap.
use linux_system_programming.Prelude.{
  ℕ, ◌==◌, Bool, true, false, ◌||◌, List, [], ◌∷◌, ◌++◌, Option, some, none, ◌≡◌, refl, sym, ◌∙◌,
  arith, append-nil, subst, if◌then◌else◌,
}
use linux_system_programming.Sys.{Line}
use linux_system_programming.Threads.SemPosix.Laws.{holds}
use linux_system_programming.Threads.SemPosix.Program.{
  wait_line, again_line, enter_line, leave_line,
}
use linux_system_programming.Threads.SemPosix.Places.{
  Place, unborn, at_print, at_wait, at_try, at_again, at_nap, at_enter, at_sleep, at_leave, at_post,
  at_end, gone, pc, within, served, Said,
}
use linux_system_programming.Threads.SemPosix.Places

abbrev pub has : ℕ → List ℕ → Bool
has j [] = false
has j (i ∷ s) = i == j || has j s

has-own : (i : ℕ) (s : List ℕ) → has i (i ∷ s) ≡ true
has-own i s = ground arith

-- Lines in order, with the thread that is inside at their end and those that have left: one goes in
-- only where nobody is inside, and only once.
pub data Orderly : Option ℕ → List ℕ → List Line → Type 0 where
  silence : Orderly none [] []
  waits :
      {h : Option ℕ} {s : List ℕ} {o : List Line} (i : ℕ)
      → Orderly h s o
      → Orderly h s (o ++ (wait_line i ∷ []))
  retries :
      {h : Option ℕ} {s : List ℕ} {o : List Line} (i : ℕ)
      → Orderly h s o
      → Orderly h s (o ++ (again_line i ∷ []))
  enters :
      {s : List ℕ} {o : List Line} (i : ℕ)
      → has i s ≡ false
      → Orderly none s o
      → Orderly (some i) s (o ++ (enter_line i ∷ []))
  leaves :
      {s : List ℕ} {o : List Line} (i : ℕ)
      → has i s ≡ false
      → Orderly (some i) s o
      → Orderly none (i ∷ s) (o ++ (leave_line i ∷ []))

within-unserved : (p : Place) → within p ≡ true → served p ≡ false
within-unserved at_post h = cc
within-unserved at_end h = cc
within-unserved gone h = cc
within-unserved p h = refl

-- A step of thread `i`: who is inside before and behind it, and who has left.
pub record Kept (i : ℕ) (p' : Place) (h' : Option ℕ) (s : List ℕ) (o : List Line) : Type 0 where
  pub left : List ℕ
  pub orderly : Orderly h' left o
  pub mine : has i left ≡ served p'
  pub others : (j : ℕ) → i == j ≡ false → has j left ≡ has j s

same_left :
    (p : Place) {i : ℕ} {p' : Place} {h h' : Option ℕ} {s : List ℕ} {o : List Line}
    → has i s ≡ served p
    → served p' ≡ served p
    → h' ≡ h
    → Orderly h s o
    → Kept i p' h' s o
same_left p {s = s} {o} m e a r = record {
  left = s;
  orderly = subst (λ x. Orderly x s o) (sym a) r;
  mine = m ∙ sym e;
  others = λ j _. refl;
}

pub Said-Kept :
    {i : ℕ} {p p' : Place} {h h' : Option ℕ} {s : List ℕ} {o o' : List Line}
    → Said i p p' o'
    → Orderly h s o
    → has i s ≡ served p
    → (within p' ≡ within p → h' ≡ h)
    → (holds (pc p) ≡ 1 → within p ≡ false → within p' ≡ true → (h ≡ none) × (h' ≡ some i))
    → (within p ≡ true → within p' ≡ false → (h ≡ some i) × (h' ≡ none))
    → Kept i p' h' s (o ++ o')
Said-Kept {p = p} {s = s} {o} (Places.nothing a b) r m same into out =
    same_left p m b (same a) (subst (Orderly _ s) (sym (append-nil o)) r)
Said-Kept {i} {p} (Places.waits a b) r m same into out = same_left p m b (same a) (waits i r)
Said-Kept {i} {p} (Places.retries a b) r m same into out = same_left p m b (same a) (retries i r)
Said-Kept {i} {p} {s = s} {o} (Places.enters c a b d) r m same into out =
    let (x, y) = into c a b in
    let n : has i s ≡ false = m ∙ (sym d ∙ within-unserved _ b) in
    same_left p m d y (enters i n (subst (λ z. Orderly z s o) x r))
Said-Kept {i} {p} {s = s} {o} (Places.leaves a b c d) r m same into out =
    let (x, y) = out a b in
    let n : has i s ≡ false = m ∙ c in
    record {
      left = i ∷ s;
      orderly =
          subst (λ z. Orderly z (i ∷ s) (o ++ (leave_line i ∷ []))) (sym y)
            (leaves i n (subst (λ z. Orderly z s o) x r));
      mine = has-own i s ∙ sym d;
      others = λ j e. rw e refl;
    }

-- Who is inside, of three threads.
abbrev pub holder : Bool → Bool → Bool → Option ℕ
holder a b c = if a then some 0 else if b then some 1 else if c then some 2 else none

-- Inside is a thread with the resource.
pub within-holds : (p : Place) → holds (pc p) ≡ 0 → within p ≡ false
within-holds at_sleep h = absurd (omega arith)
within-holds at_leave h = absurd (omega arith)
within-holds unborn h = refl
within-holds at_print h = refl
within-holds at_wait h = refl
within-holds (at_try f) h = refl
within-holds (at_again f) h = refl
within-holds (at_nap f) h = refl
within-holds at_enter h = refl
within-holds at_post h = refl
within-holds at_end h = refl
within-holds gone h = refl

pub within-one : (p : Place) → within p ≡ true → holds (pc p) ≡ 1
within-one at_sleep h = refl
within-one at_leave h = refl
within-one p h = cc
