-- ===== src/Ipc/Fifo/Joint.antt =====
-- The FIFO programs: the states of both, at any time of their chat.
use linux_system_programming.Prelude.{
  ℕ, ◌+◌, Bool, true, false, not, List, [], ◌∷◌, ◌++◌, Option, none, some, ◌≡◌, arith,
}
use linux_system_programming.Sys.{Line, Reply}
use linux_system_programming.Pair.{Pair}
use linux_system_programming.Pair.Go.{both}
use linux_system_programming.Ipc.Fifo.{Call}
use linux_system_programming.Ipc.Fifo.Channel.{Channel}
use linux_system_programming.Ipc.Fifo.Answers.{view}
pub use linux_system_programming.Ipc.Fifo.Station.{
  Place, closing, showing, prompting, typing, taking, opened, writing, leaving, entering, waiting,
  reading, less, behind, prog, writes, reads, sends, gets, cost, NonEmpty, cost-prompting,
  cost-entering, nonempty,
}
pub use linux_system_programming.Ipc.Fifo.Facts.{
  AreLines, Facts, hush_a, hush_b, Facts-prompt, Facts-show, Facts-type, Facts-turn,
}

-- Where the one in front is, up to its open; the lines it has typed and not sent, and got and not
-- shown.
pub data Ahead (xs : List (List ℕ)) : Place → List (List ℕ) → List (List ℕ) → Type 0 where
  at_closing : {t : List ℕ} → Ahead xs (closing t) [] (t ∷ [])
  at_showing : {t : List ℕ} → Ahead xs (showing t) [] (t ∷ [])
  at_prompting : Ahead xs prompting [] []
  at_typing : NonEmpty xs → Ahead xs typing [] []
  at_taking : {t : List ℕ} → Ahead xs (taking t) (t ∷ []) []

pub data Away : Place → Type 0 where
  at_leaving : Away leaving
  at_entering : Away entering

-- Where the other one is, and whether it has been met.
pub data Idle (who : Bool) (ys : List (List ℕ)) : Place → Bool → Type 0 where
  away : {b : Place} {m : Bool} → Away b → Idle who ys b m
  waits : (who ≡ true → NonEmpty ys) → Idle who ys waiting false

pub data Offers : Place → List ℕ → Type 0 where
  at_opened : {t : List ℕ} → Offers (opened t) t
  at_writing : {t : List ℕ} → Offers (writing t) t

pub data Awaits : Place → Type 0 where
  at_waiting : Awaits waiting
  at_reading : Awaits reading

-- The process `who` is in front; what the two still have to type, where they are, which of them have
-- been met, what is in the FIFO, and the lines on their way from the one and to it.
pub data Phase (who : Bool) (xs ys : List (List ℕ))
    : Place → Place → Bool → Bool → Option (List ℕ) → List (List ℕ) → List (List ℕ) → Type 0 where
  apart :
      {a b : Place} {m m' : Bool} {pa pb : List (List ℕ)}
      → Ahead xs a pa pb
      → Idle who ys b m'
      → Phase who xs ys a b m m' none pa pb
  alone :
      {b : Place} {m' : Bool} {t : List ℕ}
      → Away b
      → Phase who xs ys (opened t) b false m' none (t ∷ []) []
  meeting :
      {a b : Place} {t : List ℕ}
      → Offers a t
      → Awaits b
      → Phase who xs ys a b true true none (t ∷ []) []
  handed :
      {a b : Place} {m : Bool} {t : List ℕ}
      → Idle (not who) xs a m
      → Awaits b
      → Phase who xs ys a b m true (some (t ++ (0 ∷ []))) (t ∷ []) []

-- The states of the chat with `n` steps to come.
pub data Joint (typed : Bool → List (List ℕ)) (n : ℕ) : Pair Call Reply Channel → Type 0 where
  joint :
      (who : Bool) {xs ys pa pb : List (List ℕ)} {a b : Place} {m m' : Bool} {x : Option (List ℕ)}
      (i r j s : List ℕ) {po qo : List Line}
      → Phase who xs ys a b m m' x pa pb
      → Facts typed who xs ys pa pb po qo
      → cost who a xs + cost (not who) b ys ≡ n
      → Joint typed n (
          both who
            (prog who a xs i r)
            (prog (not who) b ys j s)
            (view who (writes a) (reads a) m xs (writes b) (reads b) m' ys x)
            po
            qo)

-- The same state as the other one sees it.
pub Joint-idle :
    {typed : Bool → List (List ℕ)} {n : ℕ} (who : Bool) {xs ys pa pb : List (List ℕ)} {a b : Place}
    {m m' : Bool} {x : Option (List ℕ)} (i r j s : List ℕ) {po qo : List Line}
    → Phase who xs ys a b m m' x pa pb
    → Facts typed who xs ys pa pb po qo
    → cost who a xs + cost (not who) b ys ≡ n
    → Joint typed n (
        both
          (not who)
          (prog (not who) b ys j s)
          (prog who a xs i r)
          (view (not who) (writes b) (reads b) m' ys (writes a) (reads a) m xs x)
          qo
          po)
unfolding view
Joint-idle true i r j s p f e = joint true i r j s p f e
Joint-idle false i r j s p f e = joint false i r j s p f e

-- The other one as the one in front.
pub Joint-front :
    {typed : Bool → List (List ℕ)} {n : ℕ} (who : Bool) {xs ys pa pb : List (List ℕ)} {a b : Place}
    {m m' : Bool} {x : Option (List ℕ)} (i r j s : List ℕ) {po qo : List Line}
    → Phase (not who) ys xs b a m' m x pb pa
    → Facts typed (not who) ys xs pb pa qo po
    → cost who a xs + cost (not who) b ys ≡ n
    → Joint typed n (
        both
          (not who)
          (prog (not who) b ys j s)
          (prog who a xs i r)
          (view (not who) (writes b) (reads b) m' ys (writes a) (reads a) m xs x)
          qo
          po)
Joint-front true i r j s p f e = joint false j s i r p f (omega (arith, e))
Joint-front false i r j s p f e = joint true j s i r p f (omega (arith, e))
