-- ===== src/Threads/SemPrint/Race.antt =====
-- SysV/sem_example.c: no deadlock under the semaphore, and what can happen without it.
use linux_system_programming.Prelude.{
  ◌∙◌, ℕ, zero, suc, ◌+◌, ◌≤◌, ◌<◌, Bool, true, false, List, [], ◌∷◌, ◌++◌, some, ◌≡◌, refl, ◌⊎◌,
  inl, inr, length, get_elem?, take, map, arith, ap, get_elem?-append, map-append,
}
use native.Mathlib.Decide.{dec_lt}
use linux_system_programming.Threads.SemPrint.{
  to_lower, Memory, Pc, head, acquire, check, load, got, have, release, finished, Move, enter,
  leave, p_op, p_skip, at_end, more, load_index, fetch, put, v_op, v_skip, System, Step, step_first,
  step_second, Reach, start, later,
}
use linux_system_programming.Threads.SemPrint.Invariant.{inside, Inv, Inv-swap, take-suc, Reach-Inv}

get_elem?-buffer :
    (text : List ℕ) (i : ℕ) → i ≤ length text → (c : ℕ) × (get_elem? (text ++ (0 ∷ [])) i ≡ some c)
get_elem?-buffer [] zero h = (0, refl)
get_elem?-buffer [] (suc i) h = elim h [ ]
get_elem?-buffer (x ∷ xs) zero h = (x, refl)
get_elem?-buffer (x ∷ xs) (suc i) h = get_elem?-buffer xs i (omega arith)

-- A thread has finished, waits for the semaphore at 0, or can move.
data Ready (text : List ℕ) (tidx : Bool) (m : Memory) (p : Pc) : Type 0 where
  ended : p ≡ finished → Ready text tidx m p
  waits : m.sem ≡ 0 → inside p ≡ 0 → Ready text tidx m p
  moves :
      {m' : Memory} {p' : Pc}
      → Move true text tidx m p m' p'
      → m'.over ≡ m.over
      → Ready text tidx m p

ready : (text : List ℕ) (tidx : Bool) (m : Memory) (p q : Pc) → Inv text m p q → Ready text tidx m p
ready text tidx m (head true) q v = moves enter refl
ready text tidx m (head false) q v = moves leave refl
ready text tidx m acquire q v = elim (dec_lt 0 m.sem) [
  | yes h ↦ moves (p_op refl h) refl
  | no h ↦ waits (omega arith) refl
]
ready text tidx m check q v = elim (dec_lt m.index (length text)) [
  | yes h ↦ moves (more h) refl
  | no h ↦ moves (at_end (omega arith)) refl
]
ready text tidx m load q v = moves load_index refl
ready text tidx m (got i) q v =
    let (c, e) = get_elem?-buffer text i (omega (arith, v.own.1)) in moves (fetch e) refl
ready text tidx m (have c) q v = moves put refl
ready text tidx m (release b) q v = moves (v_op refl) refl
ready text tidx m finished q v = ended refl

either :
    {text : List ℕ} (s : System)
    → s.mem.over ≡ false
    → s.mem.sem + inside s.first + inside s.second ≡ 1
    → Ready text false s.mem s.first
    → Ready text true s.mem s.second
    → ((s.first ≡ finished) × (s.second ≡ finished))
      ⊎ ((t : System) × Step true text s t × (t.mem.over ≡ false))
either s r f (moves mv o) _ = inr (_, step_first r mv, o ∙ r)
either s r f _ (moves mv o) = inr (_, step_second r mv, o ∙ r)
either s r f (ended a) (ended b) = inl (a, b)
either s r f (ended a) (waits z o) = absurd (omega (arith, ap inside a))
either s r f (waits z o) (ended b) = absurd (omega (arith, ap inside b))
either s r f (waits z o) (waits _ o') = absurd (omega arith)

-- No deadlock: in every reachable state under the semaphore, while the process runs, either both
-- threads have finished or one of them can move, by a step in which no `semop` fails.
pub Reach-progress :
    {text : List ℕ} {s : System}
    → Reach true text s
    → s.mem.over ≡ false
    → ((s.first ≡ finished) × (s.second ≡ finished))
      ⊎ ((t : System) × Step true text s t × (t.mem.over ≡ false))
Reach-progress {text} {s} r running =
    let v = Reach-Inv r in
    either s running v.free (ready text false s.mem s.first s.second v)
      (ready text true s.mem s.second s.first (Inv-swap v))

-- Without the semaphore the first thread can run alone up to any place in the text.
abbrev alone : List ℕ → ℕ → System
alone done n = record {
  mem = record { sem = 1; index = n; printed = done; over = false };
  first = head true;
  second = head true;
}

round :
    {text : List ℕ} (done : List ℕ) {n c : ℕ}
    → get_elem? (text ++ (0 ∷ [])) n ≡ some c
    → n < length text
    → Reach false text (alone done n)
    → Reach false text (alone (done ++ (to_lower c ∷ [])) (n + 1))
round done e h r =
    later
      (later
        (later
          (later
            (later (later (later r (step_first refl enter)) (step_first refl (p_skip refl)))
              (step_first refl (more h)))
            (step_first refl load_index))
          (step_first refl (fetch e)))
        (step_first refl put))
      (step_first refl (v_skip refl))

get_elem?-left :
    (text : List ℕ) (n : ℕ)
    → n < length text
    → (c : ℕ) × (get_elem? text n ≡ some c) × (get_elem? (text ++ (0 ∷ [])) n ≡ some c)
get_elem?-left [] n h = elim h [ ]
get_elem?-left (x ∷ xs) zero h = (x, refl, refl)
get_elem?-left (x ∷ xs) (suc n) h = get_elem?-left xs n (omega arith)

alone-take :
    (text : List ℕ) (n : ℕ)
    → n ≤ length text
    → Reach false text (alone (map to_lower (take n text)) n)
alone-take text zero h = start
alone-take text (suc n) h =
    let (c, e, e') = get_elem?-left text n h in
    let s : n + 1 ≡ suc n = omega arith in
    let r : Reach false text (alone (map to_lower (take n text) ++ (to_lower c ∷ [])) (suc n)) =
      rw s at (round (map to_lower (take n text)) e' h (alone-take text n (omega arith))) in
    rw (take-suc text n c e) (rw map-append r)

-- Without the semaphore both threads can pass the test at the last character: the second one then
-- reads the NUL behind the text and prints it, and the index ends past the text.
pub Reach-race :
    (text : List ℕ) (k : ℕ)
    → length text ≡ k + 1
    → (s : System) × Reach false text s
      × (length text < s.mem.index)
      × (s.mem.printed ≡ map to_lower (take k text) ++ (0 ∷ []))
Reach-race text k e =
    let (c, _, last) = get_elem?-left text k (omega arith) in
    let nul : get_elem? (text ++ (0 ∷ [])) (k + 1) ≡ some 0 =
      rw (← e) (get_elem?-append text [] 0) in
    let below : k < length text = omega arith in
    let r : Reach false text (alone (map to_lower (take k text)) k) =
      alone-take text k (omega arith) in
    let r' =
      later (later (later r (step_first refl enter)) (step_first refl (p_skip refl)))
        (step_first refl (more below)) in
    let r'' =
      later (later (later r' (step_second refl enter)) (step_second refl (p_skip refl)))
        (step_second refl (more below)) in
    let r3 = later (later r'' (step_first refl load_index)) (step_first refl (fetch last)) in
    (
      _,
      later (later (later r3 (step_second refl load_index)) (step_second refl (fetch nul)))
          (step_second refl put),
      omega arith,
      refl,
    )
