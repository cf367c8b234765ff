-- ===== src/Ipc/Fifo/Chat.antt =====
-- fifo/write_fifo.c and fifo/read_fifo.c: the chat of the two programs, under every schedule.
use linux_system_programming.Prelude.{
  ℕ, zero, suc, ◌+◌, ◌*◌, ◌≤◌, ◌∙◌, Bool, true, false, List, [], ◌∷◌, ◌++◌, none, some, ◌≡◌, refl,
  length, arith,
}
use linux_system_programming.Sys.{Line, Reply, halt, out_of_fuel}
use linux_system_programming.Pair.{Pair, Schedule, stop, go, step, texts}
use linux_system_programming.Pair.Go.{Go, step-Go, Moves-step}
use linux_system_programming.Ipc.Fifo.{Call, write_rounds, read_rounds}
use linux_system_programming.Ipc.Fifo.Channel.{Channel, channel}
use linux_system_programming.Ipc.Fifo.Answers.{view}
use linux_system_programming.Ipc.Fifo.Round.{between}
use linux_system_programming.Ipc.Fifo.Places.{Process}
use linux_system_programming.Ipc.Fifo.Joint.{
  Place, closing, showing, prompting, typing, taking, opened, writing, leaving, entering, waiting,
  reading, prog, cost, AreLines, apart, at_prompting, away, at_entering, Joint, joint,
}
use linux_system_programming.Ipc.Fifo.Front.{front}
use linux_system_programming.Ipc.Fifo.Back.{back}
use linux_system_programming.Ipc.Fifo.Rests.{rests}

-- The writer's user types `ws`, and the reader's `rs`; each program makes as many rounds.
abbrev pub talking : (ws rs : List (List ℕ)) (wi wr ri rr : List ℕ) → Pair Call Reply Channel
talking ws rs wi wr ri rr = record {
  parent = write_rounds (length ws) wi wr;
  child = read_rounds (length rs) ri rr;
  shared = between ws rs false false;
  parent_out = [];
  child_out = [];
}

abbrev typed : List (List ℕ) → List (List ℕ) → Bool → List (List ℕ)
typed ws rs true = ws
typed ws rs false = rs

-- A process that moves has a step to make.
cost-Go :
    (who : Bool) (a : Place) (xs : List (List ℕ)) (i r : List ℕ) {s t : Channel} {p : Process}
    {o : List Line}
    → Go channel who s (prog who a xs i r) p t o
    → 1 ≤ cost who a xs
unfolding write_rounds read_rounds
cost-Go true prompting [] i r g = elim g [ ]
cost-Go true prompting (x ∷ xs) i r g = omega arith
cost-Go false prompting xs i r g = omega arith
cost-Go true entering xs i r g = omega arith
cost-Go false entering [] i r g = elim g [ ]
cost-Go false entering (x ∷ xs) i r g = omega arith
cost-Go who (closing t) xs i r g = omega arith
cost-Go who (showing t) xs i r g = omega arith
cost-Go who typing xs i r g = omega arith
cost-Go who (taking t) xs i r g = omega arith
cost-Go who (opened t) xs i r g = omega arith
cost-Go who (writing t) xs i r g = omega arith
cost-Go who leaving xs i r g = omega arith
cost-Go who waiting xs i r g = omega arith
cost-Go who reading xs i r g = omega arith

before : (n x y : ℕ) → x + y ≡ n → 1 ≤ x → (m : ℕ) × (n ≡ suc m)
before zero x y e h = absurd (omega (arith, e, h))
before (suc n) x y e h = (n, refl)

behind_that : (n x y : ℕ) → x + y ≡ n → 1 ≤ y → (m : ℕ) × (n ≡ suc m)
behind_that n x y e h = before n y x (omega (arith, e)) h

module _ (ws rs : List (List ℕ)) where
  Joint-start :
      (wi wr ri rr : List ℕ)
      → length ws ≡ length rs
      → AreLines ws
      → AreLines rs
      → Joint (typed ws rs) (22 * length ws) (talking ws rs wi wr ri rr)
  unfolding view
  Joint-start wi wr ri rr e hw hr =
      joint true {xs = ws} {ys = rs} {m = false} {m' = false} wi wr ri rr
        (apart at_prompting (away at_entering))
        (record {
          from_a = refl;
          from_b = refl;
          even = omega (arith, e);
          lines_a = hw;
          lines_b = hr;
        })
        (omega (arith, e))

  -- The state behind a step, with one step less to come.
  abbrev Next : ℕ → Pair Call Reply Channel → Type 0
  Next n u = (m : ℕ) × (n ≡ suc m) × Joint (typed ws rs) m u

  Joint-step :
      (who : Bool) (n : ℕ) {t u : Pair Call Reply Channel}
      → Joint (typed ws rs) n t
      → step channel who t ≡ some u
      → Next n u
  unfolding view
  Joint-step true n (joint true {xs} {ys} {a} {b} i r j s {po} {qo} h f c) e =
      step-Go channel true _ _ _ po qo _ e (Next n) (λ p t o g.
        let (m, k) = before n _ _ c (cost-Go true a xs i r g) in
        (m, k, front (typed ws rs) true xs ys i r j s po qo m h f (c ∙ k) g))
  Joint-step false n (joint false {xs} {ys} {a} {b} i r j s {po} {qo} h f c) e =
      step-Go channel false _ _ _ po qo _ e (Next n) (λ p t o g.
        let (m, k) = before n _ _ c (cost-Go false a xs i r g) in
        (m, k, front (typed ws rs) false xs ys i r j s po qo m h f (c ∙ k) g))
  Joint-step false n (joint true {xs} {ys} {a} {b} i r j s {po} {qo} h f c) e =
      step-Go channel false _ _ _ qo po _ e (Next n) (λ p t o g.
        let (m, k) = behind_that n _ _ c (cost-Go false b ys j s g) in
        (m, k, back (typed ws rs) true xs ys i r j s po qo m h f (c ∙ k) g))
  Joint-step true n (joint false {xs} {ys} {a} {b} i r j s {po} {qo} h f c) e =
      step-Go channel true _ _ _ qo po _ e (Next n) (λ p t o g.
        let (m, k) = behind_that n _ _ c (cost-Go true b ys j s g) in
        (m, k, back (typed ws rs) false xs ys i r j s po qo m h f (c ∙ k) g))

  Joint-kept :
      {n c : ℕ} {t u : Pair Call Reply Channel}
      → Joint (typed ws rs) c t
      → Schedule channel t n u
      → (m : ℕ) × (n + m ≡ c) × Joint (typed ws rs) m u
  Joint-kept {c} h stop = (c, omega arith, h)
  Joint-kept {c} h (go who e l) =
      let (m, k, h') = Joint-step who c h e in
      let (m', k', h'') = Joint-kept h' l in (m', omega (arith, k, k'), h'')

abbrev pub IsPrefix : List (List ℕ) → List (List ℕ) → Type 0
IsPrefix a b = (c : List (List ℕ)) × (a ++ c ≡ b)

Joint-prefixes :
    (ws rs : List (List ℕ)) {n : ℕ} {t : Pair Call Reply Channel}
    → Joint (typed ws rs) n t
    → IsPrefix (texts t.parent_out) rs × IsPrefix (texts t.child_out) ws
Joint-prefixes ws rs (joint true i r j s h f c) = ((_, f.from_b), (_, f.from_a))
Joint-prefixes ws rs (joint false i r j s h f c) = ((_, f.from_a), (_, f.from_b))

-- Both have made all their rounds.
pub record Finished (ws rs : List (List ℕ)) (t : Pair Call Reply Channel) : Type 0 where
  pub writer_reads : texts t.parent_out ≡ rs
  pub reader_reads : texts t.child_out ≡ ws
  pub writer_over : t.parent ≡ halt out_of_fuel
  pub reader_over : t.child ≡ halt out_of_fuel
  pub nothing_left : t.shared.bytes ≡ none

Joint-Finished :
    (ws rs : List (List ℕ)) {n : ℕ} {t : Pair Call Reply Channel}
    → Joint (typed ws rs) n t
    → step channel true t ≡ none
    → step channel false t ≡ none
    → Finished ws rs t
unfolding view
Joint-Finished ws rs (joint true {xs} {ys} i r j s {po} {qo} h f c) a b =
    let o =
      rests (typed ws rs) i r j s po qo true xs ys h f (λ m. Moves-step channel true _ _ _ _ m a)
        (λ m. Moves-step channel false _ _ _ _ m b) in
    record {
      writer_reads = o.shown_a;
      reader_reads = o.shown_b;
      writer_over = o.over_a;
      reader_over = o.over_b;
      nothing_left = o.nothing;
    }
Joint-Finished ws rs (joint false {xs} {ys} i r j s {po} {qo} h f c) a b =
    let o =
      rests (typed ws rs) i r j s po qo false xs ys h f (λ m. Moves-step channel false _ _ _ _ m b)
        (λ m. Moves-step channel true _ _ _ _ m a) in
    record {
      writer_reads = o.shown_b;
      reader_reads = o.shown_a;
      writer_over = o.over_b;
      reader_over = o.over_a;
      nothing_left = o.nothing;
    }

-- Under every schedule of the two loops, at any time, what the writer's user has read is a beginning
-- of what the reader's user types, line by line and in order, and what the reader's user has read is a
-- beginning of what the writer's user types. Both type as many lines as there are rounds, each
-- without NULs and short enough for its array; what the arrays held at first does not matter.
pub Schedule-prefixes :
    (ws rs : List (List ℕ)) (wi wr ri rr : List ℕ) {n : ℕ} {t : Pair Call Reply Channel}
    → length ws ≡ length rs
    → AreLines ws
    → AreLines rs
    → Schedule channel (talking ws rs wi wr ri rr) n t
    → IsPrefix (texts t.parent_out) rs × IsPrefix (texts t.child_out) ws
Schedule-prefixes ws rs wi wr ri rr e hw hr l =
    let (_, _, h) = Joint-kept ws rs (Joint-start ws rs wi wr ri rr e hw hr) l in
    Joint-prefixes ws rs h

-- The two loops come to their end, and do not block each other: every schedule has at most 22 steps
-- for a round, and where neither can move, each has made all its rounds, each user has read all that
-- the other one typed, in order, and nothing is left in the FIFO. Both type as many lines as there are
-- rounds, each without NULs and short enough for its array.
pub Schedule-Finished :
    (ws rs : List (List ℕ)) (wi wr ri rr : List ℕ) {n : ℕ} {t : Pair Call Reply Channel}
    → length ws ≡ length rs
    → AreLines ws
    → AreLines rs
    → Schedule channel (talking ws rs wi wr ri rr) n t
    → (n ≤ 22 * length ws)
      × (step channel true t ≡ none → step channel false t ≡ none → Finished ws rs t)
Schedule-Finished ws rs wi wr ri rr e hw hr l =
    let (m, k, h) = Joint-kept ws rs (Joint-start ws rs wi wr ri rr e hw hr) l in
    (omega (arith, k), Joint-Finished ws rs h)
