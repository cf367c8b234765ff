-- ===== src/Ipc/Fifo/Station.antt =====
-- The FIFO programs: where a process is, and what it has still to do.
use linux_system_programming.Prelude.{
  ℕ, zero, suc, ◌+◌, ◌*◌, Bool, true, false, List, [], ◌∷◌, ◌≡◌, refl, length, arith,
}
use linux_system_programming.Ipc.Fifo.Places.{
  Process, from_reading, from_waiting, from_showing, from_closing, from_typing, from_leaving,
  from_writing, from_opened, from_taking, received, sent,
}

-- The places of a process; the lines are the one it got and the one it sends.
pub data Place : Type 0 where
  closing : List ℕ → Place
  showing : List ℕ → Place
  prompting : Place
  typing : Place
  taking : List ℕ → Place
  opened : List ℕ → Place
  writing : List ℕ → Place
  leaving : Place
  entering : Place
  waiting : Place
  reading : Place

-- The rounds behind the one in which the next line is typed.
abbrev pub less : List (List ℕ) → ℕ
less [] = zero
less (t ∷ ts) = length ts

-- The rounds behind the one in which a line is got, with `ts` still to type.
abbrev pub behind : Bool → List (List ℕ) → ℕ
behind true ts = length ts
behind false ts = less ts

-- The program of a process at a place, with its two arrays.
abbrev pub prog : Bool → Place → List (List ℕ) → List ℕ → List ℕ → Process
prog who (closing t) ts i r = from_closing (received who (behind who ts) i) t r
prog who (showing t) ts i r = from_showing (received who (behind who ts) i) t r
prog who prompting ts i r = received who (behind who ts) i r
prog who typing ts i r = from_typing (sent who (less ts) r) i
prog who (taking t) ts i r = from_taking (sent who (length ts) r) t i
prog who (opened t) ts i r = from_opened (sent who (length ts) r) t i
prog who (writing t) ts i r = from_writing (sent who (length ts) r) t i
prog who leaving ts i r = from_leaving (sent who (length ts) r) i
prog who entering ts i r = sent who (length ts) r i
prog who waiting ts i r = from_waiting (received who (behind who ts) i) r
prog who reading ts i r = from_reading (received who (behind who ts) i) r

-- The ends that it has.
abbrev pub writes : Place → Bool
writes (opened t) = true
writes (writing t) = true
writes leaving = true
writes _ = false

abbrev pub reads : Place → Bool
reads waiting = true
reads reading = true
reads (closing t) = true
reads _ = false

-- The steps that a process has still to make: 11 for a round, 6 to send a line and 5 to get one.
abbrev pub sends : Bool → ℕ
sends true = 0
sends false = 6

abbrev pub gets : Bool → ℕ
gets true = 5
gets false = 0

abbrev pub cost : Bool → Place → List (List ℕ) → ℕ
cost who waiting xs = 4 + sends who + 11 * behind who xs
cost who reading xs = 3 + sends who + 11 * behind who xs
cost who (closing t) xs = 2 + sends who + 11 * behind who xs
cost who (showing t) xs = 1 + sends who + 11 * behind who xs
cost who prompting xs = sends who + 11 * behind who xs
cost who typing xs = 5 + gets who + 11 * less xs
cost who (taking t) xs = 4 + gets who + 11 * length xs
cost who (opened t) xs = 3 + gets who + 11 * length xs
cost who (writing t) xs = 2 + gets who + 11 * length xs
cost who leaving xs = 1 + gets who + 11 * length xs
cost who entering xs = gets who + 11 * length xs

pub data NonEmpty : List (List ℕ) → Type 0 where
  nonempty : {t : List ℕ} {ts : List (List ℕ)} → NonEmpty (t ∷ ts)

pub cost-prompting :
    (who : Bool) (xs : List (List ℕ))
    → NonEmpty xs
    → cost who prompting xs ≡ suc (cost who typing xs)
cost-prompting true (t ∷ ts) h = omega arith
cost-prompting false (t ∷ ts) h = omega arith
cost-prompting who [] h = elim h [ ]

pub cost-entering :
    (who : Bool) (xs : List (List ℕ))
    → (who ≡ false → NonEmpty xs)
    → cost who entering xs ≡ suc (cost who waiting xs)
cost-entering true xs h = omega arith
cost-entering false (t ∷ ts) h = omega arith
cost-entering false [] h = elim (h refl) [ ]
