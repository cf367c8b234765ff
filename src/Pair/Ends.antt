-- ===== src/Pair/Ends.antt =====
-- Pairs of processes whose schedules all end well, by a derivation that follows the programs.
use linux_system_programming.Prelude.{
  ℕ, suc, ◌<◌, Bool, true, false, not, Option, none, some, ◌≡◌, sym, ◌∙◌, arith, subst,
}
use linux_system_programming.Pair.{Shared, Pair, step, Schedule, stop, go}
use mathlib.Core.Option.{some-injective, none-ne-some}

module _ {C R S : Type 0} (k : Shared C R S) (good : Pair C R S → Type 0) where
  -- Fewer than `n` steps can be made from `s`, and wherever neither process can move `good` holds.
  pub data Ends : ℕ → Pair C R S → Type 0 where
    next :
        {n : ℕ} {s : Pair C R S}
        → ((t : Pair C R S) → step k true s ≡ some t → Ends n t)
        → ((t : Pair C R S) → step k false s ≡ some t → Ends n t)
        → (step k true s ≡ none → step k false s ≡ none → good s)
        → Ends (suc n) s

  -- What a derivation says is true of every schedule.
  pub Ends-sound :
      {n m : ℕ} {s t : Pair C R S}
      → Ends n s
      → Schedule k s m t
      → (m < n) × (step k true t ≡ none → step k false t ≡ none → good t)
  Ends-sound (next f h g) stop = (omega arith, g)
  Ends-sound (next f h g) (go {t = t} true e r) =
      let (a, b) = Ends-sound (f t e) r in (omega arith, b)
  Ends-sound (next f h g) (go {t = t} false e r) =
      let (a, b) = Ends-sound (h t e) r in (omega arith, b)

  cannot : {a : Option (Pair C R S)} {A : Type 0} → a ≡ none → (t : Pair C R S) → a ≡ some t → A
  cannot x t e = absurd (none-ne-some t (sym x ∙ e))

  only :
      {a : Option (Pair C R S)} {n : ℕ} {t : Pair C R S}
      → a ≡ some t
      → Ends n t
      → (u : Pair C R S) → a ≡ some u
      → Ends n u
  only {t = t} x h u e = subst (Ends _) (some-injective t u (sym x ∙ e)) h

  -- The steps that a state can make, for either process that is named first.
  pub Ends-stop :
      {s : Pair C R S} (who : Bool)
      → step k who s ≡ none
      → step k (not who) s ≡ none
      → good s
      → Ends 1 s
  Ends-stop true a b g = next (λ u. cannot a u) (λ u. cannot b u) (λ _ _. g)
  Ends-stop false a b g = next (λ u. cannot b u) (λ u. cannot a u) (λ _ _. g)

  pub Ends-one :
      {n : ℕ} {s t : Pair C R S} (who : Bool)
      → step k who s ≡ some t
      → step k (not who) s ≡ none
      → Ends n t
      → Ends (suc n) s
  Ends-one {t = t} true a b h = next (only a h) (λ u. cannot b u) (λ x _. cannot x t a)
  Ends-one {t = t} false a b h = next (λ u. cannot b u) (only a h) (λ _ x. cannot x t a)

  pub Ends-two :
      {n : ℕ} {s t u : Pair C R S} (who : Bool)
      → step k who s ≡ some t
      → step k (not who) s ≡ some u
      → Ends n t
      → Ends n u
      → Ends (suc n) s
  Ends-two {t = t} true a b h j = next (only a h) (only b j) (λ x _. cannot x t a)
  Ends-two {t = t} false a b h j = next (only b j) (only a h) (λ _ x. cannot x t a)
