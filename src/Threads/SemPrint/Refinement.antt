-- ===== src/Threads/SemPrint/Refinement.antt =====
-- SysV/sem_example.c with the semaphore: the two threads together behave as one typist.
use linux_system_programming.Prelude.{
  ℕ, zero, suc, ◌+◌, Bool, true, List, [], ◌∷◌, ◌++◌, some, length, map, drop, get_elem?, ◌≡◌, refl,
  arith, ◌⊎◌, inl, inr, map-append, length-append,
}
use linux_system_programming.Threads.SemPrint.{
  to_lower, Memory, Pc, Move, enter, leave, p_op, p_fail, p_skip, at_end, more, load_index, fetch,
  put, v_op, v_fail, v_skip, System, Step, step_first, step_second, init, Reach,
}
use linux_system_programming.Threads.SemPrint.Invariant.{IsFresh, Reach-Inv}

-- The specification: a typist who types one character of what is left at a time.
pub record Typing : Type 0 where
  pub typed : List ℕ
  pub left : List ℕ

pub data Emit : Typing → Typing → Type 0 where
  emit :
      (typed : List ℕ) (c : ℕ) (left : List ℕ)
      → Emit
          (record { typed = typed; left = c ∷ left })
          (record { typed = typed ++ (c ∷ []); left = left })

-- What a state of the program stands for: the case of letters is forgotten, and so is everything
-- that the threads do between two characters.
abbrev pub view_memory : List ℕ → Memory → Typing
view_memory text m = record {
  typed = map to_lower m.printed;
  left = drop (length m.printed) (map to_lower text);
}

abbrev pub view : List ℕ → System → Typing
view text s = view_memory text s.mem

drop-get_elem? : (xs : List ℕ) (i x : ℕ) → get_elem? xs i ≡ some x → drop i xs ≡ x ∷ drop (i + 1) xs
drop-get_elem? [] i x e = cc
drop-get_elem? (y ∷ ys) zero x e = ground arith
drop-get_elem? (y ∷ ys) (suc i) x e =
    let s : suc i + 1 ≡ suc (i + 1) = omega arith in rw s (drop-get_elem? ys i x e)

Move-refines :
    {text : List ℕ} {tidx : Bool} {m m' : Memory} {p p' : Pc}
    → Move true text tidx m p m' p'
    → IsFresh text m p
    → (view_memory text m' ≡ view_memory text m) ⊎ Emit (view_memory text m) (view_memory text m')
Move-refines {text} {m = m} (put {c}) f =
    let l : length (m.printed ++ (c ∷ [])) ≡ length m.printed + 1 =
      omega (arith, length-append m.printed (c ∷ [])) in
    let d = drop-get_elem? (map to_lower text) (length m.printed) (to_lower c) f in
    inr (rw (l, d, map-append to_lower m.printed (c ∷ [])) (emit _ _ _))
Move-refines enter f = inl refl
Move-refines leave f = inl refl
Move-refines (p_op u h) f = inl refl
Move-refines (p_fail u) f = inl refl
Move-refines (p_skip u) f = inl refl
Move-refines (at_end h) f = inl refl
Move-refines (more h) f = inl refl
Move-refines load_index f = inl refl
Move-refines (fetch e) f = inl refl
Move-refines (v_op u) f = inl refl
Move-refines (v_fail u) f = inl refl
Move-refines (v_skip u) f = inl refl

-- With the semaphore the threads refine a typist who has the whole text before him: the first state
-- stands for his first one, and each step of either thread in a reachable state leaves him where he
-- is or has him type the next character, the case of letters aside.
pub Reach-refines :
    {text : List ℕ} {s t : System}
    → Reach true text s
    → Step true text s t
    → (view text init ≡ record { typed = []; left = map to_lower text })
      × ((view text t ≡ view text s) ⊎ Emit (view text s) (view text t))
Reach-refines r (step_first o mv) = (refl, Move-refines mv (Reach-Inv r).own)
Reach-refines r (step_second o mv) = (refl, Move-refines mv (Reach-Inv r).other)
