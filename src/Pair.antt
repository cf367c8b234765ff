-- ===== src/Pair.antt =====
-- Two processes, a parent and its child, that run at the same time on one kernel: each step is one
-- call or one line of either, in any order, and a call can block.
pub mod Ends
pub mod Go
use linux_system_programming.Prelude.{
  subst, length, ℤ, same_ℤ, ap, ℕ, zero, suc, ◌<◌, Bool, true, false, ◌&&◌, List, [], ◌∷◌, ◌++◌,
  Option, none, some, ◌≡◌, refl, arith, pos, negsuc, Option-cases, inl, inr,
}
use linux_system_programming.Sys.{
  Arg, Prog, ret, halt, print, call, Line, out, err, str, num, End, exited, undefined, out_of_fuel,
}
use linux_system_programming.Libc.{same_text, same_text-≡}
pub use linux_system_programming.Outcome.{
  and_left, and_right, and_both, or_cases, succeeded, succeeded-≡, exits, exits-≡, texts,
  texts-append, same_texts, same_texts-≡, numbers, same_numbers, same_numbers-≡,
}
use mathlib.Core.Path.{ap₂}
use mathlib.Core.Option.{some-injective, none-ne-some}

-- A kernel for two processes: who calls (`true` is the parent), how the other one has ended if it
-- has, the call, and the shared state. `none` is a call that blocks.
abbrev pub Shared : Type 0 → Type 0 → Type 0 → Type 0
Shared C R S = Bool → Option End → C → S → Option (R × S)

pub record Pair (C R S : Type 0) : Type 0 where
  pub parent : Prog C R (Unit {0})
  pub child : Prog C R (Unit {0})
  pub shared : S
  pub parent_out : List Line
  pub child_out : List Line

abbrev pub end_of : {C R : Type 0} → Prog C R (Unit {0}) → Option End
end_of (ret a) = some (exited (pos 0))
end_of (halt e) = some e
end_of _ = none

-- What a process is after some replies to its calls; the lines before the last of them are left out.
abbrev pub resume : {C R : Type 0} → List R → Prog C R (Unit {0}) → Prog C R (Unit {0})
resume [] p = p
resume (r ∷ rs) (ret a) = ret a
resume (r ∷ rs) (halt e) = halt e
resume (r ∷ rs) (print l p) = resume (r ∷ rs) p
resume (r ∷ rs) (call c k) = resume rs (k r)

module _ {C R S : Type 0} (k : Shared C R S) where
  abbrev advance :
      Bool → Option End → Prog C R (Unit {0}) → S → Option (Prog C R (Unit {0}) × S × List Line)
  advance who other (ret a) s = none
  advance who other (halt e) s = none
  advance who other (print l p) s = some (p, s, l ∷ [])
  advance who other (call c f) s = elim (k who other c s) [
    | none ↦ none
    | some (r, t) ↦ some (f r, t, [])
  ]

  -- One step of the one or the other, if it can move.
  unfoldable pub step : Bool → Pair C R S → Option (Pair C R S)
  step true s = elim (advance true (end_of s.child) s.parent s.shared) [
    | none ↦ none
    | some (p, t, l) ↦ some (record s { parent = p; shared = t; parent_out = s.parent_out ++ l })
  ]
  step false s = elim (advance false (end_of s.parent) s.child s.shared) [
    | none ↦ none
    | some (p, t, l) ↦ some (record s { child = p; shared = t; child_out = s.child_out ++ l })
  ]

  -- A schedule of some steps.
  pub data Schedule : Pair C R S → ℕ → Pair C R S → Type 0 where
    stop : {s : Pair C R S} → Schedule s 0 s
    go :
        {s t u : Pair C R S} {n : ℕ} (who : Bool)
        → step who s ≡ some t
        → Schedule t n u
        → Schedule s (suc n) u

  -- All schedules are shorter than a bound, and wherever neither process can move a test holds.
  unfoldable pub explore : ℕ → (Pair C R S → Bool) → Pair C R S → Bool
  explore zero good s = false
  explore (suc n) good s = elim (step true s) [
    | none ↦ elim (step false s) [ none ↦ good s | some u ↦ explore n good u ]
    | some t ↦ elim (step false s) [
      | none ↦ explore n good t
      | some u ↦ explore n good t && explore n good u
    ]
  ]

  explore-next :
      (n : ℕ) (good : Pair C R S → Bool) (who : Bool) (s t : Pair C R S)
      → explore (suc n) good s ≡ true
      → step who s ≡ some t
      → explore n good t ≡ true
  unfolding explore
  explore-next n good true s t e h = elim (Option-cases (step false s)) [
    | inl z ↦ let d = rw z at (rw (h, explore) at e) in d
    | inr (u, z) ↦
        let d = rw z at (rw (h, explore) at e) in and_left (explore n good t) (explore n good u) d
  ]
  explore-next n good false s u e h = elim (Option-cases (step true s)) [
    | inl z ↦ let d = rw h at (rw (z, explore) at e) in d
    | inr (t, z) ↦
        let d = rw h at (rw (z, explore) at e) in and_right (explore n good t) (explore n good u) d
  ]

  -- What the exploration says is true of every schedule.
  pub explore_sound :
      (n : ℕ) (good : Pair C R S → Bool) (s : Pair C R S)
      → explore n good s ≡ true
      → {m : ℕ} {t : Pair C R S} → Schedule s m t
      → (m < n) × (step true t ≡ none → step false t ≡ none → good t ≡ true)
  unfolding explore
  explore_sound zero good s e r = cc
  explore_sound (suc n) good s e stop =
      (omega arith, λ a b. let d = rw b at (rw (a, explore) at e) in d)
  explore_sound (suc n) good s e (go {t = t} who h r) =
      let (a, b) = explore_sound n good t (explore-next n good who s t e h) r in (omega arith, b)

  -- A schedule by who moves.
  unfoldable pub play : List Bool → Pair C R S → Option (Pair C R S)
  play [] s = some s
  play (who ∷ ws) s = elim (step who s) [ none ↦ none | some t ↦ play ws t ]

  pub play-Schedule :
      (ws : List Bool) (s t : Pair C R S) → play ws s ≡ some t → Schedule s (length ws) t
  unfolding play
  play-Schedule [] s t e = let q = some-injective s t e in subst (λ u. Schedule s 0 u) q stop
  play-Schedule (who ∷ ws) s t e = elim (Option-cases (step who s)) [
    | inl z ↦ absurd (none-ne-some t (rw (z, play) at e))
    | inr (u, z) ↦ go who z (play-Schedule ws u t (rw (z, play) at e))
  ]

  -- A schedule goes on from where its first part leads.
  pub play-append :
      (ws vs : List Bool) (s t : Pair C R S) → play ws s ≡ some t → play (ws ++ vs) s ≡ play vs t
  unfolding play
  play-append [] vs s t e = ap (play vs) (some-injective s t e)
  play-append (who ∷ ws) vs s t e = elim (Option-cases (step who s)) [
    | inl z ↦ absurd (none-ne-some t (rw (z, play) at e))
    | inr (u, z) ↦ rw (z, play) (play-append ws vs u t (rw (z, play) at e))
  ]
