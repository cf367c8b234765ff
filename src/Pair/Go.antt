-- ===== src/Pair/Go.antt =====
-- A step of a pair as a step of one process.
use linux_system_programming.Prelude.{
  Bool, true, false, List, [], ◌∷◌, ◌++◌, Option, none, some, Option-cases, inl, inr, ◌≡◌, sym, ◌∙◌,
  subst,
}
use linux_system_programming.Sys.{Prog, ret, halt, print, call, Line, End}
use linux_system_programming.Pair.{Shared, Pair, end_of, step}
use mathlib.Core.Option.{some-injective, none-ne-some}

module _ {C R S : Type 0} where
  -- One process and the other one; `true` says that the one is the parent.
  abbrev pub both :
      Bool → Prog C R (Unit {0}) → Prog C R (Unit {0}) → S → List Line → List Line → Pair C R S
  both true p q s po qo = record {
    parent = p;
    child = q;
    shared = s;
    parent_out = po;
    child_out = qo;
  }
  both false p q s po qo = record {
    parent = q;
    child = p;
    shared = s;
    parent_out = qo;
    child_out = po;
  }

module _ {C R S : Type 0} (k : Shared C R S) where
  -- One step of the process `who`, and the lines it prints.
  pub data Go (who : Bool) (s : S)
      : Prog C R (Unit {0}) → Prog C R (Unit {0}) → S → List Line → Type 0 where
    prints : {l : Line} {p : Prog C R (Unit {0})} → Go who s (print l p) p s (l ∷ [])
    calls :
        {other : Option End} {c : C} {f : R → Prog C R (Unit {0})} {r : R} {t : S}
        → k who other c s ≡ some (r, t)
        → Go who s (call c f) (f r) t []

  -- A call that is answered goes on with the answer, and one that blocks does not.
  pub Go-answered :
      (P : Prog C R (Unit {0}) → S → List Line → Type 0) {who : Bool} {s t t' : S} {c : C}
      {f : R → Prog C R (Unit {0})} {r : R} {p : Prog C R (Unit {0})} {o : List Line}
      → ((other : Option End) → k who other c s ≡ some (r, t))
      → P (f r) t []
      → Go who s (call c f) p t' o
      → P p t' o
  Go-answered P {f = f} {r} e h (calls {other = x} e') =
      subst (λ x. P (f x.0) x.1 []) (some-injective _ _ (sym (e x) ∙ e')) h

  pub Go-blocked :
      {A : Type 0} {who : Bool} {s t' : S} {c : C} {f : R → Prog C R (Unit {0})}
      {p : Prog C R (Unit {0})} {o : List Line}
      → ((other : Option End) → k who other c s ≡ none)
      → Go who s (call c f) p t' o
      → A
  Go-blocked e (calls {other = x} e') = absurd (none-ne-some _ (sym (e x) ∙ e'))

  step-Go-true :
      (p q : Prog C R (Unit {0})) (s : S) (po qo : List Line) (u : Pair C R S)
      → step k true (both true p q s po qo) ≡ some u
      → (P : Pair C R S → Type 0)
      → ((p' : Prog C R (Unit {0})) (t : S) (o : List Line)
          → Go true s p p' t o
          → P (both true p' q t (po ++ o) qo))
      → P u
  unfolding step
  step-Go-true (ret a) q s po qo u h P f = cc
  step-Go-true (halt e) q s po qo u h P f = cc
  step-Go-true (print l p) q s po qo u h P f =
      subst P (some-injective _ _ h) (f p s (l ∷ []) prints)
  step-Go-true (call c g) q s po qo u h P f = elim (Option-cases (k true (end_of q) c s)) [
    | inl e ↦ absurd (none-ne-some _ (rw (e, step) at h))
    | inr ((r, t), e) ↦ subst P (some-injective _ _ (rw (e, step) at h)) (f (g r) t [] (calls e))
  ]

  step-Go-false :
      (p q : Prog C R (Unit {0})) (s : S) (po qo : List Line) (u : Pair C R S)
      → step k false (both false p q s po qo) ≡ some u
      → (P : Pair C R S → Type 0)
      → ((p' : Prog C R (Unit {0})) (t : S) (o : List Line)
          → Go false s p p' t o
          → P (both false p' q t (po ++ o) qo))
      → P u
  unfolding step
  step-Go-false (ret a) q s po qo u h P f = cc
  step-Go-false (halt e) q s po qo u h P f = cc
  step-Go-false (print l p) q s po qo u h P f =
      subst P (some-injective _ _ h) (f p s (l ∷ []) prints)
  step-Go-false (call c g) q s po qo u h P f = elim (Option-cases (k false (end_of q) c s)) [
    | inl e ↦ absurd (none-ne-some _ (rw (e, step) at h))
    | inr ((r, t), e) ↦ subst P (some-injective _ _ (rw (e, step) at h)) (f (g r) t [] (calls e))
  ]

  -- What holds behind each step of a process holds wherever the pair's step leads.
  pub step-Go :
      (who : Bool) (p q : Prog C R (Unit {0})) (s : S) (po qo : List Line) (u : Pair C R S)
      → step k who (both who p q s po qo) ≡ some u
      → (P : Pair C R S → Type 0)
      → ((p' : Prog C R (Unit {0})) (t : S) (o : List Line)
          → Go who s p p' t o
          → P (both who p' q t (po ++ o) qo))
      → P u
  step-Go true = step-Go-true
  step-Go false = step-Go-false

  -- A process that can move, whatever the other one has come to.
  pub data Moves (who : Bool) (s : S) : Prog C R (Unit {0}) → Type 0 where
    moves_print : {l : Line} {p : Prog C R (Unit {0})} → Moves who s (print l p)
    moves_call :
        {c : C} {f : R → Prog C R (Unit {0})} {r : R} {t : S}
        → ((other : Option End) → k who other c s ≡ some (r, t))
        → Moves who s (call c f)

  pub Moves-step :
      {A : Type 0} (who : Bool) {p : Prog C R (Unit {0})} (q : Prog C R (Unit {0})) (s : S)
      (po qo : List Line)
      → Moves who s p
      → step k who (both who p q s po qo) ≡ none
      → A
  unfolding step
  Moves-step true q s po qo moves_print h = cc
  Moves-step false q s po qo moves_print h = cc
  Moves-step true q s po qo (moves_call e) h =
      absurd (none-ne-some _ (sym (rw (e (end_of q), step) at h)))
  Moves-step false q s po qo (moves_call e) h =
      absurd (none-ne-some _ (sym (rw (e (end_of q), step) at h)))
