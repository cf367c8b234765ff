-- ===== src/Outcome.antt =====
-- What processes come to, as tests that can be run and what the tests say.
use linux_system_programming.Prelude.{
  ℕ, zero, suc, Bool, true, false, ◌&&◌, ◌||◌, ℤ, pos, negsuc, same_ℤ, List, [], ◌∷◌, ◌++◌, ◌≡◌,
  refl, arith, ap, ◌⊎◌, inl, inr,
}
use linux_system_programming.Sys.{
  Arg, str, num, Line, out, err, Prog, ret, halt, print, call, exited, undefined, out_of_fuel,
}
use linux_system_programming.Libc.{same_text, same_text-≡}
use mathlib.Core.Path.{ap₂}

pub and_left : (a b : Bool) → a && b ≡ true → a ≡ true
and_left a b h = ground arith

pub and_right : (a b : Bool) → a && b ≡ true → b ≡ true
and_right a b h = ground arith

pub and_both : (a b : Bool) → a && b ≡ true → (a ≡ true) × (b ≡ true)
and_both a b h = (and_left a b h, and_right a b h)

pub or_cases : (a b : Bool) → a || b ≡ true → (a ≡ true) ⊎ (b ≡ true)
or_cases true b h = inl refl
or_cases false b h = inr h

-- Tests for the end of a schedule: a process has exited with 0; it has printed one text.
abbrev pub succeeded : {C R : Type 0} → Prog C R (Unit {0}) → Bool
succeeded (halt (exited (pos zero))) = true
succeeded _ = false

pub succeeded-≡ :
    {C R : Type 0} (p : Prog C R (Unit {0})) → succeeded p ≡ true → p ≡ halt (exited (pos 0))
succeeded-≡ (halt (exited (pos zero))) h = refl
succeeded-≡ (halt (exited (pos (suc n)))) h = cc
succeeded-≡ (halt (exited (negsuc n))) h = cc
succeeded-≡ (halt undefined) h = cc
succeeded-≡ (halt out_of_fuel) h = cc
succeeded-≡ (ret a) h = cc
succeeded-≡ (print l p) h = cc
succeeded-≡ (call c k) h = cc

abbrev pub texts : List Line → List (List ℕ)
texts (out f (str t ∷ _) ∷ ls) = t ∷ texts ls
texts (_ ∷ ls) = texts ls
texts [] = []

pub texts-append : (a b : List Line) → texts (a ++ b) ≡ texts a ++ texts b
texts-append [] b = refl
texts-append (out f [] ∷ a) b = texts-append a b
texts-append (out f (str t ∷ _) ∷ a) b = ap (λ l. t ∷ l) (texts-append a b)
texts-append (out f (num n ∷ _) ∷ a) b = texts-append a b
texts-append (err f ∷ a) b = texts-append a b

abbrev pub same_texts : List (List ℕ) → List (List ℕ) → Bool
same_texts [] [] = true
same_texts (x ∷ xs) (y ∷ ys) = same_text x y && same_texts xs ys
same_texts _ _ = false

pub same_texts-≡ : (a b : List (List ℕ)) → same_texts a b ≡ true → a ≡ b
same_texts-≡ [] [] h = refl
same_texts-≡ [] (y ∷ b) h = cc
same_texts-≡ (x ∷ a) [] h = cc
same_texts-≡ (x ∷ a) (y ∷ b) h =
    ap₂ (λ c l. c ∷ l) (same_text-≡ x y (and_left (same_text x y) (same_texts a b) h))
      (same_texts-≡ a b (and_right (same_text x y) (same_texts a b) h))

-- The numbers that are printed.
abbrev args_numbers : List Arg → List ℤ
args_numbers (num n ∷ rest) = n ∷ args_numbers rest
args_numbers (str t ∷ rest) = args_numbers rest
args_numbers [] = []

abbrev pub numbers : List Line → List ℤ
numbers (out f rest ∷ ls) = args_numbers rest ++ numbers ls
numbers (err f ∷ ls) = numbers ls
numbers [] = []

abbrev pub same_numbers : List ℤ → List ℤ → Bool
same_numbers [] [] = true
same_numbers (x ∷ xs) (y ∷ ys) = same_ℤ x y && same_numbers xs ys
same_numbers _ _ = false

pub same_ℤ-≡ : (a b : ℤ) → same_ℤ a b ≡ true → a ≡ b
same_ℤ-≡ (pos m) (pos n) h = ap pos (ground arith)
same_ℤ-≡ (pos m) (negsuc n) h = cc
same_ℤ-≡ (negsuc m) (pos n) h = cc
same_ℤ-≡ (negsuc m) (negsuc n) h = ap negsuc (ground arith)

-- A process has exited with a status.
abbrev pub exits : {C R : Type 0} → ℤ → Prog C R (Unit {0}) → Bool
exits n (halt (exited m)) = same_ℤ m n
exits n _ = false

pub exits-≡ :
    {C R : Type 0} (n : ℤ) (p : Prog C R (Unit {0})) → exits n p ≡ true → p ≡ halt (exited n)
exits-≡ n (halt (exited m)) h = ap (λ x. halt (exited x)) (same_ℤ-≡ m n h)
exits-≡ n (halt undefined) h = cc
exits-≡ n (halt out_of_fuel) h = cc
exits-≡ n (ret a) h = cc
exits-≡ n (print l p) h = cc
exits-≡ n (call c k) h = cc

pub same_numbers-≡ : (a b : List ℤ) → same_numbers a b ≡ true → a ≡ b
same_numbers-≡ [] [] h = refl
same_numbers-≡ [] (y ∷ b) h = cc
same_numbers-≡ (x ∷ a) [] h = cc
same_numbers-≡ (x ∷ a) (y ∷ b) h =
    let (e, f) = and_both (same_ℤ x y) (same_numbers a b) h in
    ap₂ (λ c l. c ∷ l) (same_ℤ-≡ x y e) (same_numbers-≡ a b f)
