-- ===== src/Threads/SemPrint/Termination.antt =====
-- SysV/sem_example.c with the semaphore: every schedule of the two threads is finite.
use linux_system_programming.Prelude.{
  ℕ, ◌+◌, ◌-◌, ◌*◌, ◌≤◌, ◌<◌, Bool, true, false, List, length, ◌≡◌, arith,
}
use linux_system_programming.Threads.SemPrint.{
  Memory, Pc, head, acquire, check, load, got, have, release, finished, Move, enter, leave, p_op,
  p_fail, p_skip, at_end, more, load_index, fetch, put, v_op, v_fail, v_skip, System, Step,
  step_first, step_second, Reach, start, later,
}
use linux_system_programming.Threads.SemPrint.Invariant.{IsFresh, Inv, Reach-Inv}

-- How many steps led to a state.
abbrev pub steps : {use_sem : Bool} {text : List ℕ} {s : System} → Reach use_sem text s → ℕ
steps start = 0
steps (later r _) = steps r + 1

-- What a thread has left of its round; a fetched character pays for the next round.
abbrev rank : Pc → ℕ
rank (head true) = 6
rank (head false) = 1
rank acquire = 5
rank check = 4
rank load = 3
rank (got i) = 2
rank (have c) = 8
rank (release true) = 7
rank (release false) = 2
rank finished = 0

abbrev running : Bool → ℕ
running true = 0
running false = 1

abbrev weight : List ℕ → Memory → ℕ
weight text m = 9 * (length text - m.index) + running m.over

-- Each move of a thread takes from its rank and the memory's weight.
Move-decreases :
    {text : List ℕ} {tidx : Bool} {m m' : Memory} {p p' : Pc}
    → Move true text tidx m p m' p'
    → m.over ≡ false
    → IsFresh text m p
    → weight text m' + rank p' < weight text m + rank p
Move-decreases enter o f = omega arith
Move-decreases leave o f = omega arith
Move-decreases (p_op u h) o f = omega arith
Move-decreases (p_fail u) o f = rw o (omega arith)
Move-decreases (p_skip u) o f = cc
Move-decreases (at_end h) o f = omega arith
Move-decreases (more h) o f = omega arith
Move-decreases load_index o f = omega arith
Move-decreases (fetch e) o (i, l) = omega arith
Move-decreases put o f = omega arith
Move-decreases (v_op {b = true} u) o f = omega arith
Move-decreases (v_op {b = false} u) o f = omega arith
Move-decreases (v_fail {b} u) o f = rw o (omega arith)
Move-decreases (v_skip u) o f = cc

abbrev measure : List ℕ → System → ℕ
measure text s = weight text s.mem + rank s.first + rank s.second

Step-decreases :
    {text : List ℕ} {s t : System}
    → Step true text s t
    → Inv text s.mem s.first s.second
    → measure text t < measure text s
Step-decreases (step_first r mv) v = omega (arith, Move-decreases mv r v.own)
Step-decreases (step_second r mv) v = omega (arith, Move-decreases mv r v.other)

steps-measure :
    {text : List ℕ} {s : System} (r : Reach true text s)
    → steps r + measure text s ≤ 9 * length text + 13
steps-measure start = omega arith
steps-measure (later r st) = omega (arith, steps-measure r, Step-decreases st (Reach-Inv r))

-- With the semaphore every schedule ends: whichever thread moves next, and whether or not an
-- operation on the semaphore fails, no more than nine steps for each character and thirteen more
-- can be made.
pub Reach-terminates :
    {text : List ℕ} {s : System} (r : Reach true text s) → steps r ≤ 9 * length text + 13
Reach-terminates r = omega (arith, steps-measure r)
