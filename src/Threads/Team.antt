-- ===== src/Threads/Team.antt =====
-- The threads of one process on one kernel: each step is one call or one line of any of them, and a
-- call can block. The process is over as soon as one of them has ended it.
use linux_system_programming.Prelude.{
  Option-cases, inl, inr, ℕ, zero, suc, List, [], ◌∷◌, ◌++◌, Option, none, some, ◌≡◌, sym, ◌∙◌,
  subst,
}
use mathlib.Core.Option.{some-injective, none-ne-some}
use linux_system_programming.Sys.{Prog, ret, halt, print, call, Line, End}

-- The threads, the memory they share with the kernel, and the lines of all of them in order.
pub record Team (C R S : Type 0) : Type 0 where
  pub threads : List (Prog C R (Unit {0}))
  pub shared : S
  pub output : List Line

-- How the process has ended, if it has.
abbrev pub ended : {C R : Type 0} → List (Prog C R (Unit {0})) → Option End
ended [] = none
ended (halt e ∷ ps) = some e
ended (_ ∷ ps) = ended ps

module _ {C R S : Type 0} (k : C → S → Option (R × S)) where
  -- One step of one thread, and the lines it prints.
  pub data Go (s : S) : Prog C R (Unit {0}) → Prog C R (Unit {0}) → S → List Line → Type 0 where
    prints : {l : Line} {p : Prog C R (Unit {0})} → Go s (print l p) p s (l ∷ [])
    calls :
        {c : C} {f : R → Prog C R (Unit {0})} {r : R} {t : S}
        → k c s ≡ some (r, t)
        → Go s (call c f) (f r) t []

  -- A step of one of the threads of a list.
  pub data Turn (s : S)
      : List (Prog C R (Unit {0})) → List (Prog C R (Unit {0})) → S → List Line → Type 0 where
    this :
        {p p' : Prog C R (Unit {0})} {ps : List (Prog C R (Unit {0}))} {t : S} {o : List Line}
        → Go s p p' t o
        → Turn s (p ∷ ps) (p' ∷ ps) t o
    that :
        {p : Prog C R (Unit {0})} {ps ps' : List (Prog C R (Unit {0}))} {t : S} {o : List Line}
        → Turn s ps ps' t o
        → Turn s (p ∷ ps) (p ∷ ps') t o

  -- What the process can come to from a state.
  pub data Runs (s : Team C R S) : Team C R S → Type 0 where
    begin : Runs s s
    later :
        {u : Team C R S} {ps : List (Prog C R (Unit {0}))} {t : S} {o : List Line}
        → Runs s u
        → ended u.threads ≡ none
        → Turn u.shared u.threads ps t o
        → Runs s (record { threads = ps; shared = t; output = u.output ++ o })

  -- A call that is answered goes on with the answer, and one that blocks does not.
  pub Go-answered :
      (P : Prog C R (Unit {0}) → S → List Line → Type 0) {s t t' : S} {c : C}
      {f : R → Prog C R (Unit {0})} {r : R} {p : Prog C R (Unit {0})} {o : List Line}
      → k c s ≡ some (r, t)
      → P (f r) t []
      → Go s (call c f) p t' o
      → P p t' o
  Go-answered P {f = f} {r} e h (calls e') =
      subst (λ x. P (f x.0) x.1 []) (some-injective _ _ (sym e ∙ e')) h

  pub Go-blocked :
      {A : Type 0} {s t' : S} {c : C} {f : R → Prog C R (Unit {0})} {p : Prog C R (Unit {0})}
      {o : List Line}
      → k c s ≡ none
      → Go s (call c f) p t' o
      → A
  Go-blocked e (calls e') = absurd (none-ne-some _ (sym e ∙ e'))

  -- A run by which thread moves.
  abbrev advance : Prog C R (Unit {0}) → S → Option (Prog C R (Unit {0}) × S × List Line)
  advance (ret a) s = none
  advance (halt e) s = none
  advance (print l p) s = some (p, s, l ∷ [])
  advance (call c f) s = elim (k c s) [ none ↦ none | some (r, t) ↦ some (f r, t, []) ]

  abbrev turn :
      ℕ → List (Prog C R (Unit {0})) → S → Option (List (Prog C R (Unit {0})) × S × List Line)
  turn n [] s = none
  turn zero (p ∷ ps) s = elim (advance p s) [ none ↦ none | some (p', t, o) ↦ some (p' ∷ ps, t, o) ]
  turn (suc n) (p ∷ ps) s = elim (turn n ps s) [
    | none ↦ none
    | some (ps', t, o) ↦ some (p ∷ ps', t, o)
  ]

  abbrev goes_on : Team C R S → Option End → ℕ → Option (Team C R S)
  goes_on u (some e) n = none
  goes_on u none n = elim (turn n u.threads u.shared) [
    | none ↦ none
    | some (ps, t, o) ↦ some (record { threads = ps; shared = t; output = u.output ++ o })
  ]

  unfoldable pub play : List ℕ → Team C R S → Option (Team C R S)
  play [] u = some u
  play (n ∷ ns) u = elim (goes_on u (ended u.threads) n) [ none ↦ none | some v ↦ play ns v ]

  advance-Go :
      (p : Prog C R (Unit {0})) (s : S) (p' : Prog C R (Unit {0})) (t : S) (o : List Line)
      → advance p s ≡ some (p', t, o)
      → Go s p p' t o
  advance-Go (ret a) s p' t o h = cc
  advance-Go (halt e) s p' t o h = cc
  advance-Go (print l p) s p' t o h =
      subst (λ x. Go s (print l p) x.0 x.1 x.2) (some-injective _ _ h) prints
  advance-Go (call c f) s p' t o h = elim (Option-cases (k c s)) [
    | inl e ↦ absurd (none-ne-some _ (rw (e, advance) at h))
    | inr ((r, u), e) ↦
        subst (λ x. Go s (call c f) x.0 x.1 x.2) (some-injective _ _ (rw (e, advance) at h))
          (calls e)
  ]

  turn-Turn :
      (n : ℕ) (ps : List (Prog C R (Unit {0}))) (s : S) (ps' : List (Prog C R (Unit {0}))) (t : S)
      (o : List Line)
      → turn n ps s ≡ some (ps', t, o)
      → Turn s ps ps' t o
  turn-Turn n [] s ps' t o h = cc
  turn-Turn zero (p ∷ ps) s ps' t o h = elim (Option-cases (advance p s)) [
    | inl e ↦ absurd (none-ne-some _ (rw (e, turn) at h))
    | inr ((p', u, v), e) ↦
        subst (λ x. Turn s (p ∷ ps) x.0 x.1 x.2) (some-injective _ _ (rw (e, turn) at h))
          (this (advance-Go p s p' u v e))
  ]
  turn-Turn (suc n) (p ∷ ps) s ps' t o h = elim (Option-cases (turn n ps s)) [
    | inl e ↦ absurd (none-ne-some _ (rw (e, turn) at h))
    | inr ((qs, u, v), e) ↦
        subst (λ x. Turn s (p ∷ ps) x.0 x.1 x.2) (some-injective _ _ (rw (e, turn) at h))
          (that (turn-Turn n ps s qs u v e))
  ]

  goes_on-Runs :
      {s : Team C R S} (u v : Team C R S) (n : ℕ)
      → Runs s u
      → goes_on u (ended u.threads) n ≡ some v
      → Runs s v
  goes_on-Runs {s} u v n r h = elim (Option-cases (ended u.threads)) [
    | inr (x, e) ↦ absurd (none-ne-some _ (rw (e, goes_on) at h))
    | inl e ↦ elim (Option-cases (turn n u.threads u.shared)) [
      | inl f ↦ absurd (none-ne-some _ (rw f at (rw (e, goes_on) at h)))
      | inr ((ps, t, o), f) ↦
          subst (Runs s) (some-injective _ _ (rw f at (rw (e, goes_on) at h)))
            (later r e (turn-Turn n u.threads u.shared ps t o f))
    ]
  ]

  pub play-Runs :
      (ns : List ℕ) {s : Team C R S} (u t : Team C R S) → Runs s u → play ns u ≡ some t → Runs s t
  unfolding play
  play-Runs [] {s} u t r h = subst (Runs s) (some-injective _ _ h) r
  play-Runs (n ∷ ns) u t r h = elim (Option-cases (goes_on u (ended u.threads) n)) [
    | inl e ↦ absurd (none-ne-some _ (rw (e, play) at h))
    | inr (v, e) ↦ play-Runs ns v t (goes_on-Runs u v n r e) (rw (e, play) at h)
  ]
