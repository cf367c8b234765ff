-- ===== src/Libc.antt =====
-- What the programs use of the C library's text functions, over byte lists: `atoi`, the text of a
-- char array up to its NUL, and the conversion of an int to the `size_t` of a byte count.
use linux_system_programming.Prelude.{
  ℕ, zero, suc, ◌+◌, ◌-◌, ◌*◌, ◌^◌, ◌≤◌, ◌<◌, ℤ, pos, negsuc, Bool, true, false, ◌&&◌, ◌||◌, List,
  [], ◌∷◌, ◌++◌, Option, none, some, ◌==◌, leb, if◌then◌else◌, ◌≡◌, refl, arith, Bool-cases, inl,
  inr, All, length, drop, drop-length, append-nil, String,
}
use mathlib.Core.Path.{ap₂}
use Prim.Native.Char.{code}

-- The bytes of a string literal.
abbrev pub codes : String → List ℕ
codes String.[] = []
codes (String.◌∷◌ c s) = code c ∷ codes s

-- `isspace` in the C locale.
abbrev pub is_space : ℕ → Bool
is_space c = c == b' ' || (leb 9 c && leb c 13)

abbrev pub is_digit : ℕ → Bool
is_digit c = leb b'0' c && leb c b'9'

-- The leading digits, after the value read so far.
unfoldable pub digits_value : ℕ → List ℕ → ℕ
digits_value v [] = v
digits_value v (c ∷ s) =
    let rest = digits_value (v * 10 + (c - b'0')) s in if is_digit c then rest else v

unfoldable pub negate : ℕ → ℤ
negate zero = pos 0
negate (suc n) = negsuc n

-- A sign and the digits behind it.
unfoldable pub signed_value : List ℕ → ℤ
unfolding digits_value negate
signed_value [] = pos 0
signed_value (c ∷ s) =
    if c == b'-'
    then negate (digits_value 0 s)
    else if c == b'+'
    then pos (digits_value 0 s)
    else pos (digits_value 0 (c ∷ s))

-- `atoi`, for values that an int can hold.
unfoldable pub atoi : List ℕ → ℤ
unfolding signed_value
atoi [] = signed_value []
atoi (c ∷ s) = let rest = atoi s in if is_space c then rest else signed_value (c ∷ s)

-- The text that `%s` prints of a char array: up to the NUL. Without one the read runs on past the
-- array, which is undefined: `none`.
unfoldable pub c_string : List ℕ → Option (List ℕ)
c_string [] = none
c_string (c ∷ s) = elim (c == 0) [
  | true ↦ some []
  | false ↦ elim (c_string s) [ none ↦ none | some t ↦ some (c ∷ t) ]
]

-- An int passed as a `size_t` count.
abbrev pub to_size : ℤ → ℕ
to_size (pos n) = n
to_size (negsuc n) = 2 ^ 64 - 1 - n

-- A store of some bytes at the start of an array.
abbrev pub overlay : List ℕ → List ℕ → List ℕ
overlay new old = new ++ drop (length new) old

abbrev pub IsText : List ℕ → Type 0
IsText = All (λ c. 0 < c)

-- A text without NUL bytes is read back from an array that holds it and a NUL.
pub c_string-append : (t rest : List ℕ) → IsText t → c_string (t ++ (0 ∷ rest)) ≡ some t
unfolding c_string
c_string-append [] rest h = refl
c_string-append (c ∷ t) rest h = ground (arith, c_string-append t rest h.1)

-- An array without a NUL has no text.
pub c_string-none : (t : List ℕ) → IsText t → c_string t ≡ none
unfolding c_string
c_string-none [] h = refl
c_string-none (c ∷ t) h = ground (arith, c_string-none t h.1)

-- A store that is as long as the array replaces it.
pub overlay-full : (new old : List ℕ) → length old ≤ length new → overlay new old ≡ new
overlay-full new old h = rw (drop-length (length new) old h) (append-nil new)

-- Whatever stands before a NUL, the array has a text.
pub c_string-some : (t rest : List ℕ) → (u : List ℕ) × (c_string (t ++ (0 ∷ rest)) ≡ some u)
unfolding c_string
c_string-some [] rest = ([], refl)
c_string-some (c ∷ t) rest =
    let (u, e) = c_string-some t rest in
    elim (Bool-cases (c == 0)) [
      | inl z ↦ ([], rw (z, c_string))
      | inr z ↦ (c ∷ u, rw (z, c_string) (rw (e, c_string)))
    ]

-- `strcmp (a, b) == 0`
unfoldable pub same_text : List ℕ → List ℕ → Bool
same_text [] [] = true
same_text (x ∷ xs) (y ∷ ys) = x == y && same_text xs ys
same_text _ _ = false

-- `strcmp` tells equality, from both sides.
pub same_text_refl : (a : List ℕ) → same_text a a ≡ true
unfolding same_text
same_text_refl [] = refl
same_text_refl (x ∷ a) = ground (arith, same_text_refl a)

pub same_text-≡ : (a b : List ℕ) → same_text a b ≡ true → a ≡ b
unfolding same_text
same_text-≡ [] [] h = refl
same_text-≡ [] (y ∷ b) h = cc
same_text-≡ (x ∷ a) [] h = cc
same_text-≡ (x ∷ a) (y ∷ b) h =
    let t : same_text a b ≡ true = ground arith in
    let e : x ≡ y = ground arith in ap₂ (λ c l. c ∷ l) e (same_text-≡ a b t)
