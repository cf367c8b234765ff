-- ===== src/Sys.antt =====
-- Programs that talk to the kernel and to libc: a tree of calls, and its run against a kernel.
-- Every `main` of the repository that is a chain of system calls is such a tree over its own type
-- of calls; the kernel is a parameter that answers a call from its state.
use linux_system_programming.Prelude.{
  ℕ, ℤ, Bool, List, [], ◌∷◌, ◌++◌, String, if◌then◌else◌, ◌≡◌, refl, ap, ◌∙◌,
}

-- What most calls hand back: a value, `errno`, and the bytes stored through a pointer. A program
-- whose calls fill other structures has a reply type of its own.
pub record Reply : Type 0 where
  pub ret : ℤ
  pub errno : ℕ
  pub text : List ℕ

-- An argument of `printf`.
pub data Arg : Type 0 where
  num : ℤ → Arg
  str : List ℕ → Arg

-- A line for the user: `printf` with its format, or `perror`.
pub data Line : Type 0 where
  out : String → List Arg → Line
  err : String → Line

-- How a process ends: `exit (n)` or `return n` of `main`; a behaviour that C leaves undefined; or
-- not within the rounds that the model allows a loop.
pub data End : Type 0 where
  exited : ℤ → End
  undefined : End
  out_of_fuel : End

pub data Prog (C R A : Type 0) : Type 0 where
  ret : A → Prog C R A
  halt : End → Prog C R A
  print : Line → Prog C R A → Prog C R A
  call : C → (R → Prog C R A) → Prog C R A

infixl 5 ◌>>=◌ ◌>>◌
abbrev pub ◌>>=◌ : {C R A B : Type 0} → Prog C R A → (A → Prog C R B) → Prog C R B
ret a >>= f = f a
halt e >>= f = halt e
print l p >>= f = print l (p >>= f)
call c k >>= f = call c (λ r. k r >>= f)

abbrev pub ◌>>◌ : {C R B : Type 0} → Prog C R (Unit {0}) → Prog C R B → Prog C R B
p >> q = p >>= λ _. q

abbrev pub sys : {C R : Type 0} → C → Prog C R R
sys c = call c ret

-- A call whose result the program ignores.
abbrev pub sys_ : {C R : Type 0} → C → Prog C R (Unit {0})
sys_ c = call c (λ _. ret tt)

abbrev pub printf : {C R : Type 0} → String → List Arg → Prog C R (Unit {0})
printf format args = print (out format args) (ret tt)

abbrev pub perror : {C R : Type 0} → String → Prog C R (Unit {0})
perror message = print (err message) (ret tt)

-- `fprintf (stderr, ...)`, without the arguments.
abbrev pub eprintf : {C R : Type 0} → String → Prog C R (Unit {0})
eprintf format = print (err format) (ret tt)

-- `exit (n)`, and `return n` where it stands in `main`
abbrev pub exit : {C R A : Type 0} → ℤ → Prog C R A
exit n = halt (exited n)

-- `if (test) { ... }`
abbrev pub when : {C R : Type 0} → Bool → Prog C R (Unit {0}) → Prog C R (Unit {0})
when test p = if test then p else ret tt

-- How a part of a program ended: it handed over a value, or the process is over.
pub data Result (A : Type 0) : Type 0 where
  done : A → Result A
  halted : End → Result A

-- A run: how it ended, the kernel's state, the calls in order, and what was printed.
pub record Run (C A S : Type 0) : Type 0 where
  pub result : Result A
  pub state : S
  pub calls : List C
  pub lines : List Line

-- A kernel answers each call from its state.
abbrev pub Kernel : Type 0 → Type 0 → Type 0 → Type 0
Kernel C R S = C → S → R × S

abbrev pub log_call : {C A S : Type 0} → C → Run C A S → Run C A S
log_call c r = record r { calls = c ∷ r.calls }

abbrev pub log_line : {C A S : Type 0} → Line → Run C A S → Run C A S
log_line l r = record r { lines = l ∷ r.lines }

abbrev pub run : {C R A S : Type 0} → Kernel C R S → Prog C R A → S → Run C A S
run h (ret a) s = record { result = done a; state = s; calls = []; lines = [] }
run h (halt e) s = record { result = halted e; state = s; calls = []; lines = [] }
run h (print l p) s = log_line l (run h p s)
run h (call c k) s = log_call c (run h (k (h c s).0) (h c s).1)

abbrev pub and_then : {C R A B S : Type 0} → Kernel C R S → Run C A S → (A → Prog C R B) → Run C B S
and_then h r f = elim r.result [
  | done a ↦
      let q = run h (f a) r.state in
      record {
        result = q.result;
        state = q.state;
        calls = r.calls ++ q.calls;
        lines = r.lines ++ q.lines;
      }
  | halted e ↦ record { result = halted e; state = r.state; calls = r.calls; lines = r.lines }
]

module _ {C R A B S : Type 0} (h : Kernel C R S) (f : A → Prog C R B) where
  and_then-log_line :
      (l : Line) (x : Result A) (s : S) (cs : List C) (ls : List Line)
      → let r : Run C A S = record { result = x; state = s; calls = cs; lines = ls } in
        log_line l (and_then h r f) ≡ and_then h (log_line l r) f
  and_then-log_line l (done a) s cs ls = refl
  and_then-log_line l (halted e) s cs ls = refl

  and_then-log_call :
      (c : C) (x : Result A) (s : S) (cs : List C) (ls : List Line)
      → let r : Run C A S = record { result = x; state = s; calls = cs; lines = ls } in
        log_call c (and_then h r f) ≡ and_then h (log_call c r) f
  and_then-log_call c (done a) s cs ls = refl
  and_then-log_call c (halted e) s cs ls = refl

  -- A run of a sequence is the run of its first part and, if that hands over a value, of the rest.
  pub run->>= : (p : Prog C R A) (s : S) → run h (p >>= f) s ≡ and_then h (run h p s) f
  run->>= (ret a) s = refl
  run->>= (halt e) s = refl
  run->>= (print l p) s =
      ap (log_line l) (run->>= p s)
      ∙ (let r = run h p s in and_then-log_line l r.result r.state r.calls r.lines)
  run->>= (call c k) s =
      ap (log_call c) (run->>= (k (h c s).0) (h c s).1)
      ∙ (let r = run h (k (h c s).0) (h c s).1 in
          and_then-log_call c r.result r.state r.calls r.lines)
