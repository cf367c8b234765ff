-- ===== src/Threads/SemPrint/Joined.antt =====
-- SysV/sem_example.c with the semaphore: `main` joins the second thread only, whose pthread_t it keeps.
use linux_system_programming.Prelude.{
  ℕ, ◌+◌, ◌≤◌, Bool, true, false, if◌then◌else◌, List, ◌≡◌, refl, length, map, arith, ◌⊎◌, inl, inr,
  ap, ◌∙◌, take-length, length-map, subst,
}
use linux_system_programming.Threads.SemPrint.{
  to_lower, Memory, Pc, head, acquire, check, load, got, have, release, finished, Move, enter,
  leave, p_op, p_fail, p_skip, at_end, more, load_index, fetch, put, v_op, v_fail, v_skip, System,
  step_first, step_second, Reach, start, later,
}
use linux_system_programming.Threads.SemPrint.Invariant.{
  carries, carries-le-inside, IsFresh, Inv, Inv-swap, Reach-Inv,
}

-- Whether a thread has seen the end of the text.
abbrev seen : Pc → ℕ
seen (head b) = if b then 0 else 1
seen (release b) = if b then 0 else 1
seen finished = 1
seen _ = 0

seen-le : (q : Pc) → seen q ≤ 1
seen-le (head true) = omega arith
seen-le (head false) = omega arith
seen-le acquire = omega arith
seen-le check = omega arith
seen-le load = omega arith
seen-le (got i) = omega arith
seen-le (have c) = omega arith
seen-le (release true) = omega arith
seen-le (release false) = omega arith
seen-le finished = omega arith

seen-end :
    (text : List ℕ) (m : Memory) (q : Pc)
    → IsFresh text m q
    → (seen q ≡ 0) ⊎ (length text ≤ m.index)
seen-end text m (head true) h = inl refl
seen-end text m (head false) h = inr h
seen-end text m acquire h = inl refl
seen-end text m check h = inl refl
seen-end text m load h = inl refl
seen-end text m (got i) h = inl refl
seen-end text m (have c) h = inl refl
seen-end text m (release true) h = inl refl
seen-end text m (release false) h = inr h
seen-end text m finished h = inr h

-- Where the one has seen the end the other one has no character left to print.
Move-seen :
    {text : List ℕ} {tidx : Bool} {m m' : Memory} {p p' q : Pc}
    → Move true text tidx m p m' p'
    → Inv text m p q
    → (seen p + carries q ≤ 1) × (seen q + carries p ≤ 1)
    → (seen p' + carries q ≤ 1) × (seen q + carries p' ≤ 1)
Move-seen {q = q} enter v (a, b) =
    (omega (arith, carries-le-inside q, v.free), omega (arith, seen-le q))
Move-seen {q = q} leave v (a, b) = (a, b)
Move-seen {q = q} (p_op x y) v (a, b) =
    (omega (arith, carries-le-inside q, v.free), omega (arith, seen-le q))
Move-seen {q = q} (p_fail x) v (a, b) = (a, b)
Move-seen {q = q} (p_skip x) v (a, b) =
    (omega (arith, carries-le-inside q, v.free), omega (arith, seen-le q))
Move-seen {q = q} (at_end x) v (a, b) =
    (omega (arith, carries-le-inside q, v.free), omega (arith, seen-le q))
Move-seen {q = q} (more x) v (a, b) = (a, b)
Move-seen {q = q} load_index v (a, b) = (a, b)
Move-seen {text} {m = m} {q = q} (fetch x) v (a, b) = (
  a,
  elim (seen-end text m q v.other) [
    | inl e ↦ omega (arith, e)
    | inr e ↦ absurd (omega (arith, e, v.own.0, v.own.1))
  ],
)
Move-seen {q = q} put v (a, b) = (a, omega (arith, seen-le q))
Move-seen {q = q} (v_op x) v (a, b) = (a, b)
Move-seen {q = q} (v_fail x) v (a, b) = (a, b)
Move-seen {q = q} (v_skip x) v (a, b) = (a, b)

Reach-seen :
    {text : List ℕ} {s : System}
    → Reach true text s
    → (seen s.first + carries s.second ≤ 1) × (seen s.second + carries s.first ≤ 1)
Reach-seen start = (omega arith, omega arith)
Reach-seen (later r (step_first x mv)) = Move-seen mv (Reach-Inv r) (Reach-seen r)
Reach-seen (later r (step_second x mv)) =
    let (a, b) = Reach-seen r in let (c, d) = Move-seen mv (Inv-swap (Reach-Inv r)) (b, a) in (d, c)

-- When the second thread, the only one that `main` joins, has finished under the semaphore, then
-- wherever the first one stands the whole text is printed, each character once and in order, but for
-- the case of the letters.
pub Reach-joined :
    {text : List ℕ} {s : System}
    → Reach true text s
    → s.second ≡ finished
    → map to_lower s.mem.printed ≡ map to_lower text
Reach-joined {text} {s} r b =
    let v = Reach-Inv r in
    let e : length text ≤ s.mem.index = subst (λ p. IsFresh text s.mem p) b v.other in
    let k : length s.mem.printed ≡ length text =
      omega (arith, v.pending, v.bound, e, (Reach-seen r).1, ap seen b, ap carries b) in
    v.prefix
    ∙ rw k (take-length (length text) (map to_lower text) (omega (arith, length-map text to_lower)))
