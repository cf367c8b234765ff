-- ===== src/Threads/SemPrint/Invariant.antt =====
-- SysV/sem_example.c with the semaphore: one thread at a time, and the text in order.
use linux_system_programming.Prelude.{
  ℕ, zero, suc, ◌+◌, ◌≤◌, ◌<◌, Bool, true, false, List, [], ◌∷◌, ◌++◌, some, ◌≡◌, refl, length,
  get_elem?, take, map, arith, length-append, ap, ◌∙◌, map-append, take-length, length-map, sym,
  subst,
}
use linux_system_programming.Threads.SemPrint.{
  to_lower, Memory, Pc, head, acquire, load, got, have, release, finished, convert, Move, enter,
  leave, p_op, p_fail, p_skip, at_end, more, load_index, fetch, put, v_op, v_fail, v_skip, System,
  Step, step_first, step_second, init, Reach, start, later,
}

-- Between the two semaphore operations.
abbrev pub inside : Pc → ℕ
inside (head b) = 0
inside acquire = 0
inside finished = 0
inside _ = 1

-- a character that is taken from the text and not printed
abbrev pub carries : Pc → ℕ
carries (have c) = 1
carries _ = 0

-- What a thread's place says about shared memory.
abbrev pub IsFresh : List ℕ → Memory → Pc → Type 0
IsFresh text m load = m.index < length text
IsFresh text m (got i) = (i ≡ m.index) × (i < length text)
IsFresh text m (have c) = get_elem? (map to_lower text) (length m.printed) ≡ some (to_lower c)
IsFresh text m (head false) = length text ≤ m.index
IsFresh text m (release false) = length text ≤ m.index
IsFresh text m finished = length text ≤ m.index
IsFresh text m _ = Unit

-- The state of memory and of two threads, in either order.
pub record Inv (text : List ℕ) (m : Memory) (p q : Pc) : Type 0 where
  pub free : m.sem + inside p + inside q ≡ 1
  pub bound : m.index ≤ length text
  pub pending : length m.printed + carries p + carries q ≡ m.index
  pub prefix : map to_lower m.printed ≡ take (length m.printed) (map to_lower text)
  pub own : IsFresh text m p
  pub other : IsFresh text m q

pub Inv-swap : {text : List ℕ} {m : Memory} {p q : Pc} → Inv text m p q → Inv text m q p
Inv-swap v = record {
  free = omega (arith, v.free);
  bound = v.bound;
  pending = omega (arith, v.pending);
  prefix = v.prefix;
  own = v.other;
  other = v.own;
}

-- Both conversions keep the letter.
to_lower-convert : (tidx : Bool) (c : ℕ) → to_lower (convert tidx c) ≡ to_lower c
to_lower-convert true c = ground arith
to_lower-convert false c = ground arith

get_elem?-text :
    (text : List ℕ) (i c : ℕ)
    → i < length text
    → get_elem? (text ++ (0 ∷ [])) i ≡ some c
    → get_elem? (map to_lower text) i ≡ some (to_lower c)
get_elem?-text [] i c h e = elim h [ ]
get_elem?-text (x ∷ xs) zero c h e = ground arith
get_elem?-text (x ∷ xs) (suc i) c h e = get_elem?-text xs i c (omega arith) e

pub take-suc :
    (xs : List ℕ) (k x : ℕ) → get_elem? xs k ≡ some x → take (suc k) xs ≡ take k xs ++ (x ∷ [])
take-suc [] k x e = cc
take-suc (y ∷ ys) zero x e = ground arith
take-suc (y ∷ ys) (suc k) x e = ap (λ l. y ∷ l) (take-suc ys k x e)

pub carries-le-inside : (q : Pc) → carries q ≤ inside q
carries-le-inside (have c) = omega arith
carries-le-inside q = omega arith

-- A thread outside is not disturbed by the other one's progress.
IsFresh-outside :
    (text : List ℕ) (m m' : Memory) (q : Pc)
    → inside q ≡ 0
    → m.index ≤ m'.index
    → IsFresh text m q
    → IsFresh text m' q
IsFresh-outside text m m' (head true) o h f = tt
IsFresh-outside text m m' (head false) o h f = omega arith
IsFresh-outside text m m' finished o h f = omega arith
IsFresh-outside text m m' acquire o h f = tt
IsFresh-outside text m m' q o h f = absurd (omega arith)

IsFresh-over :
    (text : List ℕ) (m : Memory) (q : Pc)
    → IsFresh text m q
    → IsFresh text (record m { over = true }) q
IsFresh-over text m (head true) f = f
IsFresh-over text m (head false) f = f
IsFresh-over text m (release true) f = f
IsFresh-over text m (release false) f = f
IsFresh-over text m q f = f

Move-Inv :
    {text : List ℕ} {tidx : Bool} {m m' : Memory} {p p' q : Pc}
    → Move true text tidx m p m' p'
    → Inv text m p q
    → Inv text m' p' q
Move-Inv enter v = ground arith
Move-Inv leave v = ground arith
Move-Inv {text} {m = m} {m' = m'} {q = q} (p_op u h) v =
    let f = IsFresh-outside text m m' q (omega arith) (omega arith) v.other in
    record {
      free = omega arith;
      bound = v.bound;
      pending = v.pending;
      prefix = v.prefix;
      own = tt;
      other = f;
    }
Move-Inv {text} {m = m} {q = q} (p_fail u) v = record {
  free = v.free;
  bound = v.bound;
  pending = v.pending;
  prefix = v.prefix;
  own = tt;
  other = IsFresh-over text m q v.other;
}
Move-Inv (p_skip u) v = cc
Move-Inv (at_end h) v = record {
  free = v.free;
  bound = v.bound;
  pending = v.pending;
  prefix = v.prefix;
  own = h;
  other = v.other;
}
Move-Inv (more h) v = record {
  free = v.free;
  bound = v.bound;
  pending = v.pending;
  prefix = v.prefix;
  own = h;
  other = v.other;
}
Move-Inv load_index v = record {
  free = v.free;
  bound = v.bound;
  pending = v.pending;
  prefix = v.prefix;
  own = (refl, v.own);
  other = v.other;
}
Move-Inv {text} {tidx} {m} {m'} {q = q} (fetch {i} {c} e) v =
    let o : inside q ≡ 0 = omega (arith, v.free) in
    let k : length m.printed ≡ i = omega (arith, v.pending, v.own.0, carries-le-inside q) in
    record {
      free = v.free;
      bound = omega arith;
      pending = omega (arith, v.pending, v.own.0);
      prefix = v.prefix;
      own = rw (k, to_lower-convert tidx c) (get_elem?-text text i c (v.own.1) e);
      other = IsFresh-outside text m m' q o (omega arith) v.other;
    }
Move-Inv {text} {m = m} {m' = m'} {q = q} (put {c}) v =
    let o : inside q ≡ 0 = omega (arith, v.free) in
    let l : length (m.printed ++ (c ∷ [])) ≡ suc (length m.printed) =
      omega (arith, length-append m.printed (c ∷ [])) in
    record {
      free = v.free;
      bound = v.bound;
      pending = omega (arith, v.pending);
      prefix = rw l (
          map-append to_lower m.printed (c ∷ [])
          ∙ (ap (λ t. t ++ (to_lower c ∷ [])) v.prefix
              ∙ sym (take-suc (map to_lower text) (length m.printed) (to_lower c) v.own)));
      own = tt;
      other = IsFresh-outside text m m' q o (omega arith) v.other;
    }
Move-Inv {text} {m = m} {m' = m'} {q = q} (v_op {b} u) v =
    let o : inside q ≡ 0 = omega (arith, v.free) in
    let f = IsFresh-outside text m m' q o (omega arith) v.other in
    record {
      free = omega (arith, v.free);
      bound = v.bound;
      pending = v.pending;
      prefix = v.prefix;
      own = ground arith;
      other = f;
    }
Move-Inv {text} {m = m} {q = q} (v_fail {b} u) v = record {
  free = v.free;
  bound = v.bound;
  pending = v.pending;
  prefix = v.prefix;
  own = IsFresh-over text m (release b) v.own;
  other = IsFresh-over text m q v.other;
}
Move-Inv (v_skip u) v = cc

Inv-init : (text : List ℕ) → Inv text init.mem init.first init.second
Inv-init text = record {
  free = refl;
  bound = omega arith;
  pending = refl;
  prefix = refl;
  own = tt;
  other = tt;
}

pub Step-Inv :
    {text : List ℕ} {s t : System}
    → Step true text s t
    → Inv text s.mem s.first s.second
    → Inv text t.mem t.first t.second
Step-Inv (step_first r mv) v = Move-Inv mv v
Step-Inv (step_second r mv) v = Inv-swap (Move-Inv mv (Inv-swap v))

pub Reach-Inv : {text : List ℕ} {s : System} → Reach true text s → Inv text s.mem s.first s.second
Reach-Inv {text} start = Inv-init text
Reach-Inv (later r st) = Step-Inv st (Reach-Inv r)

-- With the semaphore the two threads are never in the guarded section together.
pub Reach-exclusive :
    {text : List ℕ} {s : System} → Reach true text s → inside s.first + inside s.second ≤ 1
Reach-exclusive r = let v = Reach-Inv r in omega (arith, v.free)

-- With the semaphore the shared index stays within the text, and what is printed is the text from its
-- start, in order, but for the case of the letters.
pub Reach-prefix :
    {text : List ℕ} {s : System}
    → Reach true text s
    → (s.mem.index ≤ length text)
      × (map to_lower s.mem.printed ≡ take (length s.mem.printed) (map to_lower text))
Reach-prefix r = let v = Reach-Inv r in (v.bound, v.prefix)

-- When both threads have finished under the semaphore the whole text is printed, each character
-- once and in order, but for the case of the letters.
pub Reach-finished :
    {text : List ℕ} {s : System}
    → Reach true text s
    → s.first ≡ finished
    → s.second ≡ finished
    → map to_lower s.mem.printed ≡ map to_lower text
Reach-finished {text} {s} r a b =
    let v = Reach-Inv r in
    let e : length text ≤ s.mem.index = subst (λ p. IsFresh text s.mem p) a v.own in
    let k : length s.mem.printed ≡ length text =
      omega (arith, v.pending, v.bound, e, ap carries a, ap carries b) in
    v.prefix
    ∙ rw k (take-length (length text) (map to_lower text) (omega (arith, length-map text to_lower)))
