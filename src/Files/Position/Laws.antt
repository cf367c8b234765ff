-- ===== src/Files/Position/Laws.antt =====
-- stdio_example3.c: what the file holds, and when the dots appear.
use linux_system_programming.Prelude.{
  ℕ, zero, suc, ◌+◌, pos, true, false, List, [], ◌∷◌, ◌++◌, map, ◌≡◌, refl, arith, replicate,
  append_assoc, append-nil,
}
use native.Mathlib.Nat.{add-zero}
use linux_system_programming.Sys.{Line, out, done, halted, exited, run, run->>=, and_then}
use linux_system_programming.Files.Position.{hello, at_line, dot, newline, dots, positions, main}
use linux_system_programming.Files.Position.Terminal.{Terminal, terminal}

-- Dots that appear one in each second.
abbrev pub ticks : ℕ → ℕ → List (ℕ × Line)
ticks clock zero = []
ticks clock (suc n) = (clock, dot) ∷ ticks (clock + 1) n

replicate-snoc :
    (n : ℕ) (l : Line) (ls : List Line) → replicate n l ++ (l ∷ ls) ≡ l ∷ (replicate n l ++ ls)
replicate-snoc zero l ls = refl
replicate-snoc (suc n) l ls = rw (replicate-snoc n l ls) refl

-- Without fflush the dots stay in the buffer.
run-dots_kept :
    (n : ℕ) (t : Terminal)
    → let r = run terminal (dots false n) t in
      (r.result ≡ done tt)
      × (r.state ≡ record t { clock = t.clock + n; buffer = t.buffer ++ replicate n dot })
unfolding dots terminal
run-dots_kept zero t = (refl, rw (append-nil, add-zero) refl)
run-dots_kept (suc n) t =
    let next : Terminal = record t { clock = t.clock + 1; buffer = t.buffer ++ (dot ∷ []) } in
    let (a, b) = run-dots_kept n next in
    let e : t.clock + 1 + n ≡ t.clock + suc n = omega arith in (a, rw b (rw (e, append_assoc) refl))

-- With fflush each dot is shown in its second.
run-dots_flushed :
    (n : ℕ) (t : Terminal)
    → t.buffer ≡ []
    → let r = run terminal (dots true n) t in
      (r.result ≡ done tt)
      × (r.state ≡ record t { clock = t.clock + n; shown = t.shown ++ ticks t.clock n })
unfolding dots terminal
run-dots_flushed zero t e = (refl, rw (append-nil, add-zero) refl)
run-dots_flushed (suc n) t e =
    let next : Terminal = record t {
      clock = t.clock + 1;
      shown = t.shown ++ ((t.clock, dot) ∷ []);
      buffer = [];
    } in
    let (a, b) = run-dots_flushed n next refl in
    let k : t.clock + 1 + n ≡ t.clock + suc n = omega arith in
    rw e (a, rw b (rw (k, append_assoc) refl))

abbrev pub start : List ℕ → ℕ → ℕ → Terminal
start file offset clock = record {
  file = file;
  offset = offset;
  clock = clock;
  buffer = [];
  shown = [];
}

abbrev pub told : ℕ → List (ℕ × Line)
told clock =
    (clock, at_line (pos 13))
    ∷ (clock, out "move pos to start\n" [])
    ∷ (clock, at_line (pos 0))
    ∷ []

run-positions :
    (file : List ℕ) (offset clock : ℕ)
    → let r = run terminal positions (start file offset clock) in
      (r.result ≡ done tt)
      × (r.state
          ≡ record { file = hello; offset = 0; clock = clock; buffer = []; shown = told clock })
unfolding positions terminal
run-positions file offset clock = (refl, refl)

-- Whatever the file held and whenever the program starts: the file is left with the one line; the
-- position is told as 13, and as 0 behind the rewind; the first five dots appear together with their
-- newline in the fifth second, and the five that are flushed appear one in each second.
pub main-timing :
    (file : List ℕ) (offset clock : ℕ)
    → let r = run terminal main (start file offset clock) in
      (r.result ≡ halted (exited (pos 0)))
      × (r.state.file ≡ hello)
      × (r.state.shown
          ≡ told clock
            ++ (map (λ l. (clock + 5, l)) (replicate 5 dot ++ (newline ∷ []))
                ++ (ticks (clock + 5) 5 ++ ((clock + 5 + 5, newline) ∷ []))))
unfolding main terminal
main-timing file offset clock =
    let (a, b) = run-positions file offset clock in
    let t1 : Terminal = record {
      file = hello;
      offset = 0;
      clock = clock;
      buffer = [];
      shown = told clock;
    } in
    let (c, d) = run-dots_kept 5 t1 in
    let t2 : Terminal = record {
      file = hello;
      offset = 0;
      clock = clock + 5;
      buffer = [];
      shown = told clock ++ map (λ l. (clock + 5, l)) (replicate 5 dot ++ (newline ∷ []));
    } in
    let (e, f) = run-dots_flushed 5 t2 refl in
    rw (run->>= terminal _ positions (start file offset clock)) (
      rw (a, and_then)
        (rw b (
          rw (run->>= terminal _ (dots false 5) t1) (
            rw (c, and_then)
              (rw d (
                rw (run->>= terminal _ (dots true 5) t2)
                  (rw (e, and_then) (rw f (refl, refl, refl)))))))))
