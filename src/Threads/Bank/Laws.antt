-- ===== src/Threads/Bank/Laws.antt =====
-- pthread_example.c: no withdrawal is lost.
use linux_system_programming.Prelude.{
  ℕ, ◌+◌, ◌≤◌, ℤ, pos, ◌-ℤ◌, -ℤ_swap, int_laws, Bool, true, false, ◌≡◌, refl, ◌∙◌, ap, arith,
}
use linux_system_programming.Threads.Bank.{
  Memory, Pc, start, got, stored, finished, Move, lock, read, subtract, unlock, System, step1,
  step2, init, Reach, begin, later,
}

-- A thread that holds the mutex.
abbrev pub holds : Pc → ℕ
holds start = 0
holds finished = 0
holds _ = 1

-- What a thread has taken from the balance so far.
abbrev pub taken : ℤ → Pc → ℤ
taken money stored = money
taken money finished = money
taken money _ = pos 0

abbrev bit : Bool → ℕ
bit true = 1
bit false = 0

abbrev IsFresh : Memory → Pc → Type 0
IsFresh m (got t) = t ≡ m.total_money
IsFresh m _ = Unit

record Inv (total money other : ℤ) (m : Memory) (p q : Pc) : Type 0 where
  owner : holds p + holds q ≡ bit m.mutex
  balance : m.total_money ≡ total -ℤ taken money p -ℤ taken other q
  fresh : IsFresh m p
  fresh' : IsFresh m q

Inv-swap :
    {total money other : ℤ} {m : Memory} {p q : Pc}
    → Inv total money other m p q
    → Inv total other money m q p
Inv-swap {total} {money} {other} {p = p} {q = q} v = record {
  owner = omega (arith, v.owner);
  balance = v.balance ∙ -ℤ_swap total (taken money p) (taken other q);
  fresh = v.fresh';
  fresh' = v.fresh;
}

IsFresh-free : (m m' : Memory) (q : Pc) → holds q ≡ 0 → IsFresh m' q
IsFresh-free m m' start h = tt
IsFresh-free m m' finished h = tt
IsFresh-free m m' q h = absurd (omega arith)

bit-le : (b : Bool) → bit b ≤ 1
bit-le true = omega arith
bit-le false = omega arith

bit-eq_zero : (b : Bool) → bit b ≡ 0 → b ≡ false
bit-eq_zero true h = absurd (omega arith)
bit-eq_zero false h = refl

subtract-taken : (total money t : ℤ) → total -ℤ pos 0 -ℤ t -ℤ money ≡ total -ℤ money -ℤ t
subtract-taken total money t = omega int_laws

Move-Inv :
    {total money other : ℤ} {m m' : Memory} {p p' q : Pc}
    → Move money m p m' p'
    → Inv total money other m p q
    → Inv total money other m' p' q
Move-Inv {m = m} {m'} {q = q} (lock free) v =
    let o : holds q ≡ 0 = omega (arith, v.owner, ap bit free) in
    record { owner = rw o; balance = v.balance; fresh = tt; fresh' = IsFresh-free m m' q o }
Move-Inv read v = record { owner = v.owner; balance = v.balance; fresh = refl; fresh' = v.fresh' }
Move-Inv {total} {money} {other} {m} {m'} {q = q} (subtract {total = t}) v =
    let o : holds q ≡ 0 = omega (arith, v.owner, bit-le m.mutex) in
    record {
      owner = v.owner;
      balance =
          ap (λ x. x -ℤ money) (v.fresh ∙ v.balance) ∙ subtract-taken total money (taken other q);
      fresh = tt;
      fresh' = IsFresh-free m m' q o;
    }
Move-Inv {m = m} {m'} {q = q} unlock v =
    let o : holds q ≡ 0 = omega (arith, v.owner, bit-le m.mutex) in
    record { owner = rw o; balance = v.balance; fresh = tt; fresh' = IsFresh-free m m' q o }

Inv-init : (total money other : ℤ) → Inv total money other (init total).mem start start
Inv-init total money other = record {
  owner = refl;
  balance = omega int_laws;
  fresh = tt;
  fresh' = tt;
}

Reach-Inv :
    {total money1 money2 : ℤ} {s : System}
    → Reach total money1 money2 s
    → Inv total money1 money2 s.mem s.thread1 s.thread2
Reach-Inv {total} {money1} {money2} begin = Inv-init total money1 money2
Reach-Inv (later r (step1 mv)) = Move-Inv mv (Reach-Inv r)
Reach-Inv (later r (step2 mv)) = Inv-swap (Move-Inv mv (Inv-swap (Reach-Inv r)))

-- In every interleaving at most one thread holds the mutex, and the balance is the first one less
-- what the threads have taken so far.
pub Reach-balance :
    {total money1 money2 : ℤ} {s : System}
    → Reach total money1 money2 s
    → (holds s.thread1 + holds s.thread2 ≤ 1)
      × (s.mem.total_money ≡ total -ℤ taken money1 s.thread1 -ℤ taken money2 s.thread2)
Reach-balance {s = s} r =
    let v = Reach-Inv r in (omega (arith, v.owner, bit-le s.mem.mutex), v.balance)

-- Once both threads have finished, in whatever order, both withdrawals are in the balance and the
-- mutex is free.
pub Reach-both_taken :
    {total money1 money2 : ℤ} {s : System}
    → Reach total money1 money2 s
    → s.thread1 ≡ finished
    → s.thread2 ≡ finished
    → (s.mem.total_money ≡ total -ℤ money1 -ℤ money2) × (s.mem.mutex ≡ false)
Reach-both_taken {money1 = money1} {money2} {s} r a b =
    let v = Reach-Inv r in
    let e : taken money1 s.thread1 ≡ money1 = ap (taken money1) a in
    let f : taken money2 s.thread2 ≡ money2 = ap (taken money2) b in
    let z : bit s.mem.mutex ≡ 0 = omega (arith, v.owner, ap holds a, ap holds b) in
    (rw (e, f) at v.balance, bit-eq_zero s.mem.mutex z)

-- A mutex that is locked is held by one of the threads.
pub Reach-owner :
    {total money1 money2 : ℤ} {s : System}
    → Reach total money1 money2 s
    → s.mem.mutex ≡ true
    → holds s.thread1 + holds s.thread2 ≡ 1
Reach-owner {s = s} r h = omega (arith, (Reach-Inv r).owner, ap bit h)
