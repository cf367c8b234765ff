-- ===== src/Ipc/Fifo/Rests.antt =====
-- The FIFO programs: where neither can move, their rounds are over.
use linux_system_programming.Prelude.{
  ℕ, ◌+◌, Bool, true, false, not, List, [], ◌∷◌, Option, none, ◌≡◌, refl, length, arith,
  if◌then◌else◌, append-nil,
}
use linux_system_programming.Sys.{Line, halt, out_of_fuel}
use linux_system_programming.Pair.{texts}
use linux_system_programming.Pair.Go.{Moves, moves_print, moves_call}
use linux_system_programming.Ipc.Fifo.{input_message, read_message, write_rounds, read_rounds}
use linux_system_programming.Ipc.Fifo.Channel.{Channel, channel}
use linux_system_programming.Ipc.Fifo.Answers.{
  view, channel-take_write_end, channel-take_read_end, channel-wait_for_reader,
  channel-wait_for_writer, channel-write, channel-read, channel-close_write_end,
  channel-close_read_end, channel-fgets,
}
use linux_system_programming.Ipc.Fifo.Places.{Process, from_typing, received, sent}
use linux_system_programming.Ipc.Fifo.Joint.{
  Place, less, behind, prog, writes, reads, NonEmpty, Ahead, at_closing, at_showing, at_prompting,
  at_typing, at_taking, opened, Away, at_leaving, at_entering, Idle, away, waits, at_opened,
  at_writing, at_waiting, at_reading, Phase, apart, alone, meeting, handed, Facts,
}

prompts :
    (who : Bool) (xs : List (List ℕ)) (c : ℕ) (i r : List ℕ) (s : Channel)
    → length xs + 0 ≡ c + (if who then 0 else 1)
    → (Moves channel who s (received who (behind who xs) i r) → ⊥)
    → (who ≡ true) × (xs ≡ [])
unfolding write_rounds input_message
prompts true [] c i r s e f = (refl, refl)
prompts true (t ∷ ts) c i r s e f = absurd (f moves_print)
prompts false [] c i r s e f = absurd (omega (arith, e))
prompts false (t ∷ ts) c i r s e f = absurd (f moves_print)

enters :
    (who w' r' m' m : Bool) (xs ys : List (List ℕ)) (x : Option (List ℕ)) (i r : List ℕ)
    → (Moves channel who (view who false false m xs w' r' m' ys x) (sent who (length xs) r i) → ⊥)
    → (who ≡ false) × (xs ≡ [])
unfolding read_rounds read_message
enters true w' r' m' m xs ys x i r f =
    absurd (f (moves_call (λ o. channel-take_read_end true o _ _ _ _ _ _ _ _ _)))
enters false w' r' m' m [] ys x i r f = (refl, refl)
enters false w' r' m' m (y ∷ xs) ys x i r f =
    absurd (f (moves_call (λ o. channel-take_read_end false o _ _ _ _ _ _ _ _ _)))

none_left :
    {A : Type 0} (who : Bool) (xs ys : List (List ℕ))
    → who ≡ true
    → xs ≡ []
    → NonEmpty ys
    → length xs + 0 ≡ length ys + (if who then 0 else 1)
    → A
none_left true [] (y ∷ ys) e e1 h c = absurd (omega (arith, c))
none_left true (x ∷ xs) ys e e1 h c = cc
none_left false xs ys e e1 h c = cc
none_left who xs [] e e1 h c = elim h [ ]

types :
    {A : Type 0} (who w r m w' r' m' : Bool) (xs ys : List (List ℕ)) (x : Option (List ℕ))
    (i j : List ℕ)
    → NonEmpty xs
    → (Moves channel who (view who w r m xs w' r' m' ys x) (from_typing (sent who (less xs) j) i)
        → ⊥)
    → A
types who w r m w' r' m' (u ∷ us) ys x i j h f =
    absurd (f (moves_call (λ o. channel-fgets who o _ _ _ _ _ _ _ _ _ u)))
types who w r m w' r' m' [] ys x i j h f = elim h [ ]

-- The other one has a line of its own to send when it is offered one.
owes :
    {A : Type 0} (who : Bool) (xs ys : List (List ℕ))
    → length xs + 1 ≡ length ys + (if who then 0 else 1)
    → not who ≡ false
    → ys ≡ []
    → A
owes true xs [] e e1 e2 = absurd (omega (arith, e))
owes true xs (y ∷ ys) e e1 e2 = cc
owes false xs ys e e1 e2 = cc

-- Both have made their rounds, and are at the end of their fuel.
pub record Over (typed : Bool → List (List ℕ)) (who : Bool) (p q : Process) (x : Option (List ℕ))
    (po qo : List Line) : Type 0 where
  pub shown_a : texts po ≡ typed (not who)
  pub shown_b : texts qo ≡ typed who
  pub over_a : p ≡ halt out_of_fuel
  pub over_b : q ≡ halt out_of_fuel
  pub nothing : x ≡ none

module _ (typed : Bool → List (List ℕ)) (i r j s : List ℕ) (po qo : List Line) where
  ended :
      (who : Bool) (xs ys : List (List ℕ))
      → who ≡ true
      → xs ≡ []
      → ys ≡ []
      → Facts typed who xs ys [] [] po qo
      → Over typed who
          (received who (behind who xs) i r)
          (sent (not who) (length ys) s j)
          none
          po
          qo
  unfolding write_rounds read_rounds
  ended true [] [] e e1 e2 f = record {
    shown_a = rw append-nil at f.from_b;
    shown_b = rw append-nil at f.from_a;
    over_a = refl;
    over_b = refl;
    nothing = refl;
  }
  ended false xs ys e e1 e2 f = cc
  ended true (x ∷ xs) ys e e1 e2 f = cc
  ended true [] (y ∷ ys) e e1 e2 f = cc

  rests_ahead :
      (who : Bool) (xs ys : List (List ℕ)) (m : Bool) {a b : Place} {m' : Bool}
      {pa pb : List (List ℕ)}
      → Ahead xs a pa pb
      → Idle who ys b m'
      → Facts typed who xs ys pa pb po qo
      → (Moves channel who
            (view who (writes a) (reads a) m xs (writes b) (reads b) m' ys none)
            (prog who a xs i r)
          → ⊥)
      → (Moves channel
            (not who)
            (view (not who) (writes b) (reads b) m' ys (writes a) (reads a) m xs none)
            (prog (not who) b ys j s)
          → ⊥)
      → Over typed who (prog who a xs i r) (prog (not who) b ys j s) none po qo
  rests_ahead who xs ys m at_closing q f na nb =
      absurd (na (moves_call (λ o. channel-close_read_end who o _ _ _ _ _ _ _ _ _)))
  rests_ahead who xs ys m at_showing q f na nb = absurd (na moves_print)
  rests_ahead who xs ys m at_prompting (away at_leaving) f na nb =
      absurd (nb (moves_call (λ o. channel-close_write_end (not who) o _ _ _ _ _ _ _ _ _)))
  rests_ahead who xs ys m at_prompting (away at_entering) f na nb =
      let (e, e1) = prompts who xs (length ys) i r _ f.even na in
      let (_, e2) = enters (not who) _ _ _ _ ys _ _ j s nb in ended who xs ys e e1 e2 f
  rests_ahead who xs ys m at_prompting (waits h) f na nb =
      let (e, e1) = prompts who xs (length ys) i r _ f.even na in
      none_left who xs ys e e1 (h e) f.even
  rests_ahead who xs ys m (at_typing h) q f na nb = types who _ _ m _ _ _ xs ys none i r h na
  rests_ahead who xs ys m at_taking q f na nb =
      absurd (na (moves_call (λ o. channel-take_write_end who o _ _ _ _ _ _ _ _ _)))

  rests_alone :
      (who : Bool) (xs ys : List (List ℕ)) (m' : Bool) {b : Place} {t : List ℕ}
      → Away b
      → Facts typed who xs ys (t ∷ []) [] po qo
      → (Moves channel
            (not who)
            (view (not who) (writes b) (reads b) m' ys true false false xs none)
            (prog (not who) b ys j s)
          → ⊥)
      → Over typed who (prog who (opened t) xs i r) (prog (not who) b ys j s) none po qo
  rests_alone who xs ys m' at_leaving f nb =
      absurd (nb (moves_call (λ o. channel-close_write_end (not who) o _ _ _ _ _ _ _ _ _)))
  rests_alone who xs ys m' at_entering f nb =
      let (e, e1) = enters (not who) _ _ _ _ ys _ _ j s nb in owes who xs ys f.even e e1

  pub rests :
      (who : Bool) (xs ys : List (List ℕ)) {a b : Place} {m m' : Bool} {x : Option (List ℕ)}
      {pa pb : List (List ℕ)}
      → Phase who xs ys a b m m' x pa pb
      → Facts typed who xs ys pa pb po qo
      → (Moves channel who
            (view who (writes a) (reads a) m xs (writes b) (reads b) m' ys x)
            (prog who a xs i r)
          → ⊥)
      → (Moves channel
            (not who)
            (view (not who) (writes b) (reads b) m' ys (writes a) (reads a) m xs x)
            (prog (not who) b ys j s)
          → ⊥)
      → Over typed who (prog who a xs i r) (prog (not who) b ys j s) x po qo
  rests who xs ys (apart a b) f na nb = rests_ahead who xs ys _ a b f na nb
  rests who xs ys (alone b) f na nb = rests_alone who xs ys _ b f nb
  rests who xs ys (meeting at_opened h) f na nb =
      absurd (na (moves_call (λ o. channel-wait_for_reader who o _ _ _ _ _ _ _ _)))
  rests who xs ys (meeting at_writing at_waiting) f na nb =
      absurd (na (moves_call (λ o. channel-write who o _ _ _ _ _ _ _ _)))
  rests who xs ys (meeting at_writing at_reading) f na nb =
      absurd (na (moves_call (λ o. channel-write who o _ _ _ _ _ _ _ _)))
  rests who xs ys (handed q at_waiting) f na nb =
      absurd (nb (moves_call (λ o. channel-wait_for_writer (not who) o _ _ _ _ _ _ _ _)))
  rests who xs ys (handed {t} q at_reading) f na nb =
      absurd (nb (moves_call (λ o. channel-read (not who) o _ _ _ _ _ _ _ _ t f.lines_a.0)))
