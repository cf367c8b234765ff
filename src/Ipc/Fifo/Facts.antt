-- ===== src/Ipc/Fifo/Facts.antt =====
-- The FIFO programs: the lines that are typed, on their way, and shown.
use linux_system_programming.Prelude.{
  ℕ, ◌+◌, Bool, true, false, not, List, [], ◌∷◌, ◌++◌, ◌≡◌, length, if◌then◌else◌, append-nil,
  append_assoc, arith,
}
use linux_system_programming.Sys.{Line}
use linux_system_programming.Pair.{texts, texts-append}
use linux_system_programming.Ipc.Fifo.Round.{IsLine, prompt, shown}

abbrev pub AreLines : List (List ℕ) → Type 0
AreLines [] = Unit
AreLines (t ∷ ts) = IsLine t × AreLines ts

-- What the users typed is what was shown, what is on its way, and what is to come.
pub record Facts (typed : Bool → List (List ℕ)) (who : Bool) (xs ys pa pb : List (List ℕ))
    (po qo : List Line) : Type 0 where
  pub from_a : texts qo ++ (pa ++ xs) ≡ typed who
  pub from_b : texts po ++ (pb ++ ys) ≡ typed (not who)
  pub even : length xs + length pa ≡ length ys + (if who then 0 else 1)
  pub lines_a : AreLines (pa ++ xs)
  pub lines_b : AreLines (pb ++ ys)

module _ {typed : Bool → List (List ℕ)} where
  -- Steps that print nothing.
  pub hush_a :
      {who : Bool} {xs ys pa pb : List (List ℕ)} {po qo : List Line}
      → Facts typed who xs ys pa pb po qo
      → Facts typed who xs ys pa pb (po ++ []) qo
  hush_a f = rw append-nil f

  pub hush_b :
      {who : Bool} {xs ys pa pb : List (List ℕ)} {po qo : List Line}
      → Facts typed who xs ys pa pb po qo
      → Facts typed who xs ys pa pb po (qo ++ [])
  hush_b f = rw append-nil f

  -- The prompt is no text, and the line that is shown is.
  pub Facts-prompt :
      {who : Bool} {xs ys pa pb : List (List ℕ)} {po qo : List Line}
      → Facts typed who xs ys pa pb po qo
      → Facts typed who xs ys pa pb (po ++ (prompt ∷ [])) qo
  Facts-prompt {po} f = record {
    from_a = f.from_a;
    from_b = rw (texts-append po (prompt ∷ []), append-nil) f.from_b;
    even = f.even;
    lines_a = f.lines_a;
    lines_b = f.lines_b;
  }

  pub Facts-show :
      {who : Bool} {xs ys pa : List (List ℕ)} {t : List ℕ} {po qo : List Line}
      → Facts typed who xs ys pa (t ∷ []) po qo
      → Facts typed who xs ys pa [] (po ++ (shown t ∷ [])) qo
  Facts-show {ys} {t} {po} f = record {
    from_a = f.from_a;
    from_b = rw (texts-append po (shown t ∷ []), append_assoc (texts po) (t ∷ []) ys) f.from_b;
    even = f.even;
    lines_a = f.lines_a;
    lines_b = f.lines_b.1;
  }

  pub Facts-type :
      {who : Bool} {xs ys : List (List ℕ)} {t : List ℕ} {po qo : List Line}
      → Facts typed who (t ∷ xs) ys [] [] po qo
      → Facts typed who xs ys (t ∷ []) [] po qo
  Facts-type f = record {
    from_a = f.from_a;
    from_b = f.from_b;
    even = omega (arith, f.even);
    lines_a = f.lines_a;
    lines_b = f.lines_b;
  }

  -- The line is on its way to the other one, which is in front now.
  pub Facts-turn :
      (who : Bool) {xs ys : List (List ℕ)} {t : List ℕ} {po qo : List Line}
      → Facts typed who xs ys (t ∷ []) [] po qo
      → Facts typed (not who) ys xs [] (t ∷ []) qo po
  Facts-turn true f = record {
    from_a = f.from_b;
    from_b = f.from_a;
    even = omega (arith, f.even);
    lines_a = f.lines_b;
    lines_b = f.lines_a;
  }
  Facts-turn false f = record {
    from_a = f.from_b;
    from_b = f.from_a;
    even = omega (arith, f.even);
    lines_a = f.lines_b;
    lines_b = f.lines_a;
  }
