-- ===== src/Threads/Bank/Order.antt =====
-- pthread_example.c: the lines of the two threads stand one behind the other.
use linux_system_programming.Prelude.{
  ◌+◌, ◌≤◌, ℤ, Bool, true, false, List, [], ◌++◌, ◌≡◌, refl, sym, ◌⊎◌, inl, inr, append_assoc,
  append-nil, arith,
}
use linux_system_programming.Sys.{Line, Prog}
use linux_system_programming.Threads.Bank.{finished}
use linux_system_programming.Threads.Bank.Laws.{holds}
use linux_system_programming.Threads.Bank.Program.{Call, Memory}
use linux_system_programming.Threads.Bank.Places.{
  Place, unborn, at_lock, at_end, gone, said, pc, Moved,
}

-- Two texts of lines, one behind the other: the second one starts when the first thread is through.
abbrev pub InTurn : List Line → List Line → List Line → Place → Type 0
InTurn x s t p = (x ≡ s ++ t) × ((t ≡ []) ⊎ (pc p ≡ finished))

abbrev pub Serial : ℤ → ℤ → List Line → Place → Place → Type 0
Serial money1 money2 x p q =
    InTurn x (said false money1 p) (said true money2 q) p
    ⊎ InTurn x (said true money2 q) (said false money1 p) q

-- A thread that does not hold the mutex has printed nothing or is through.
pub outside :
    (second : Bool) (money : ℤ) (p : Place)
    → holds (pc p) ≡ 0
    → (said second money p ≡ []) ⊎ (pc p ≡ finished)
outside second money unborn h = inl refl
outside second money at_lock h = inl refl
outside second money at_end h = inr refl
outside second money gone h = inr refl
outside second money p h = absurd (omega arith)

front : (x s o s' t : List Line) → x ≡ s ++ t → t ≡ [] → s ++ o ≡ s' → x ++ o ≡ s' ++ t
front x s o s' t a b e = rw (a, b, append-nil, append-nil, e) refl

behind : (x s o s' t : List Line) → x ≡ t ++ s → s ++ o ≡ s' → x ++ o ≡ t ++ s'
behind x s o s' t a e = rw (a, append_assoc, e) refl

through : (x s o s' t : List Line) → x ≡ s ++ t → o ≡ [] → s ++ o ≡ s' → x ++ o ≡ s' ++ t
through x s o s' t a b e = rw (b, append-nil, a, ← e, b, append-nil) refl

module _ (second : Bool) (money : ℤ) (m : Memory) (p q : Place) (g : Prog Call ℤ (Unit {0}))
    (m' : Memory) (o : List Line) (v : Moved second money m p g m' o) (x t : List Line)
    (single : holds (pc p) + holds (pc q) ≤ 1)
    (other : holds (pc q) ≡ 0 → (t ≡ []) ⊎ (pc q ≡ finished)) where
  abbrev s : List Line
  s = said second money p

  abbrev s' : List Line
  s' = said second money v.place

  -- A step of the one thread keeps the texts one behind the other.
  pub InTurn-step :
      InTurn x s t p ⊎ InTurn x t s q → InTurn (x ++ o) s' t v.place ⊎ InTurn (x ++ o) t s' q
  InTurn-step (inl (a, inl b)) = inl (front x s o s' t a b v.lines, inl b)
  InTurn-step (inl (a, inr b)) =
      let (c, d) = v.quiet b in inl (through x s o s' t a c v.lines, inr d)
  InTurn-step (inr (a, inr b)) = inr (behind x s o s' t a v.lines, inr b)
  InTurn-step (inr (a, inl b)) = elim v.loud [
    | inl c ↦ inr (behind x s o s' t a v.lines, inl (rw (b, c) at (sym v.lines)))
    | inr c ↦ elim (other (omega (arith, single, c))) [
      | inl d ↦ inl (front x s o s' t (rw (a, b, d) refl) d v.lines, inl d)
      | inr d ↦ inr (behind x s o s' t a v.lines, inr d)
    ]
  ]
