-- ===== src/Ipc/Fifo/Front.antt =====
-- The FIFO programs: what the process in front does.
use linux_system_programming.Prelude.{
  ℕ, suc, ◌+◌, Bool, true, false, not, List, [], ◌∷◌, ◌++◌, Option, none, some, ◌≡◌, length, arith,
  subst, sym, if◌then◌else◌, ◌||◌,
}
use linux_system_programming.Sys.{Line}
use linux_system_programming.Pair.Go.{both, Go, prints, Go-answered, Go-blocked}
use linux_system_programming.Ipc.Fifo.{input_message, read_message, write_rounds, read_rounds}
use linux_system_programming.Ipc.Fifo.Channel.{Channel, channel}
use linux_system_programming.Ipc.Fifo.Answers.{
  view, channel-take_write_end, channel-take_read_end, channel-wait_for_reader,
  channel-wait_for_reader_alone, channel-wait_for_writer_alone, channel-write,
  channel-close_write_end, channel-close_read_end, channel-fgets,
}
use linux_system_programming.Ipc.Fifo.Round.{holding, prompt}
use linux_system_programming.Ipc.Fifo.Places.{
  Process, from_typing, from_taking, from_waiting, received, sent, write_message-line,
}
use linux_system_programming.Ipc.Fifo.Joint.{
  Place, typing, less, behind, prog, cost, cost-prompting, cost-entering, writes, reads, NonEmpty,
  nonempty, Ahead, at_closing, at_showing, at_prompting, at_typing, at_taking, at_leaving,
  at_entering, Idle, away, waits, Offers, at_opened, at_writing, Awaits, at_waiting, at_reading,
  Phase, AreLines, apart, alone, meeting, handed, Facts, Joint, joint, hush_a, Facts-prompt,
  Facts-show, Facts-type,
}

-- The next round, if there is one.
pub prompts :
    (who : Bool) (xs : List (List ℕ)) (c : ℕ) (i r : List ℕ) {s t : Channel} {p : Process}
    {o : List Line}
    → length xs + 0 ≡ c + (if who then 0 else 1)
    → Go channel who s (received who (behind who xs) i r) p t o
    → (P : Process → Channel → List Line → Type 0)
    → (NonEmpty xs → P (from_typing (sent who (less xs) r) i) s (prompt ∷ []))
    → P p t o
unfolding write_rounds input_message
prompts true [] c i r e g P f = elim g [ ]
prompts true (t ∷ ts) c i r e prints P f = f nonempty
prompts false [] c i r e g P f = absurd (omega (arith, e))
prompts false (t ∷ ts) c i r e prints P f = f nonempty

-- The user types the next line.
pub types :
    (who : Bool) (w r m w' r' m' : Bool) (xs ys : List (List ℕ)) (x : Option (List ℕ))
    (i j : List ℕ) {t : Channel} {p : Process} {o : List Line}
    → NonEmpty xs
    → AreLines xs
    → Go channel who (view who w r m xs w' r' m' ys x) (from_typing (sent who (less xs) j) i) p t o
    → (P : List (List ℕ) → Process → Channel → List Line → Type 0)
    → ((u : List ℕ) (us : List (List ℕ))
        → P
            (u ∷ us)
            (from_taking (sent who (length us) j) u (holding u i))
            (view who w r m us w' r' m' ys x)
            [])
    → P xs p t o
types who w r m w' r' m' (u ∷ us) ys x i j h (l, _) g P f =
    Go-answered channel (P (u ∷ us)) (λ o. channel-fgets who o _ _ _ _ _ _ _ _ _ u)
      (subst (λ p. P (u ∷ us) p (view who w r m us w' r' m' ys x) [])
        (sym (write_message-line (sent who (length us) j) u i l)) (f u us))
      g
types who w r m w' r' m' [] ys x i j h l g P f = elim h [ ]

-- The open for reading, if there is another round.
pub enters :
    (who : Bool) (w' r' m' m : Bool) (xs ys : List (List ℕ)) (x : Option (List ℕ)) (i r : List ℕ)
    {t : Channel} {p : Process} {o : List Line}
    → Go channel who (view who false false m xs w' r' m' ys x) (sent who (length xs) r i) p t o
    → (P : Process → Channel → List Line → Type 0)
    → ((who ≡ false → NonEmpty xs)
        → P
            (from_waiting (received who (behind who xs) i) r)
            (view who false true w' xs w' r' (w' || m') ys x)
            [])
    → P p t o
unfolding read_rounds read_message
enters true w' r' m' m xs ys x i r g P f =
    Go-answered channel P (λ o. channel-take_read_end true o _ _ _ _ _ _ _ _ _) (f (λ e. cc)) g
enters false w' r' m' m [] ys x i r g P f = elim g [ ]
enters false w' r' m' m (y ∷ xs) ys x i r g P f =
    Go-answered channel P (λ o. channel-take_read_end false o _ _ _ _ _ _ _ _ _) (f (λ e. nonempty))
      g

module _ (typed : Bool → List (List ℕ)) (who : Bool) (xs ys : List (List ℕ)) (i r j s : List ℕ)
    (po qo : List Line) (n : ℕ) where
  -- The one in front goes on, and the other one stays at `b` with all it has.
  abbrev Goes : Place → Process → Channel → List Line → Type 0
  Goes b p t o = Joint typed n (both who p (prog (not who) b ys j s) t (po ++ o) qo)

  pub ahead :
      (m : Bool) {a b : Place} {m' : Bool} {pa pb : List (List ℕ)} {p : Process} {t : Channel}
      {o : List Line}
      → Ahead xs a pa pb
      → Idle who ys b m'
      → Facts typed who xs ys pa pb po qo
      → cost who a xs + cost (not who) b ys ≡ suc n
      → Go channel who
          (view who (writes a) (reads a) m xs (writes b) (reads b) m' ys none)
          (prog who a xs i r)
          p
          t
          o
      → Goes b p t o
  ahead m {b} at_closing q f e g =
      Go-answered channel (Goes b) (λ o. channel-close_read_end who o _ _ _ _ _ _ _ _ _)
        (joint who i r j s (apart at_showing q) (hush_a f) (omega (arith, e))) g
  ahead m at_showing q f e prints =
      joint who i r j s (apart at_prompting q) (Facts-show f) (omega (arith, e))
  ahead m {b} at_prompting q f e g = prompts who xs (length ys) i r f.even g (Goes b) (λ h.
      joint who i r j s (apart (at_typing h) q) (Facts-prompt f)
        (omega (arith, e, cost-prompting who xs h)))
  ahead m {b} (at_typing h) q f e g =
      types who _ _ m _ _ _ xs ys none i r h f.lines_a g
        (λ zs p t o.
          Facts typed who zs ys [] [] po qo
          → cost who typing zs + cost (not who) b ys ≡ suc n
          → Goes b p t o)
        (λ u us f e.
          joint who (holding u i) r j s (apart at_taking q) (hush_a (Facts-type f))
            (omega (arith, e)))
        f e
  ahead m {b} at_taking (away at_leaving) f e g =
      Go-answered channel (Goes b) (λ o. channel-take_write_end who o _ _ _ _ _ _ _ _ _)
        (joint who i r j s (alone at_leaving) (hush_a f) (omega (arith, e))) g
  ahead m {b} at_taking (away at_entering) f e g =
      Go-answered channel (Goes b) (λ o. channel-take_write_end who o _ _ _ _ _ _ _ _ _)
        (joint who i r j s (alone at_entering) (hush_a f) (omega (arith, e))) g
  ahead m {b} at_taking (waits h) f e g =
      Go-answered channel (Goes b) (λ o. channel-take_write_end who o _ _ _ _ _ _ _ _ _)
        (joint who i r j s (meeting at_opened at_waiting) (hush_a f) (omega (arith, e))) g

  pub offers :
      {a b : Place} {u : List ℕ} {p : Process} {t : Channel} {o : List Line}
      → Offers a u
      → Awaits b
      → Facts typed who xs ys (u ∷ []) [] po qo
      → cost who a xs + cost (not who) b ys ≡ suc n
      → Go channel who
          (view who (writes a) (reads a) true xs (writes b) (reads b) true ys none)
          (prog who a xs i r)
          p
          t
          o
      → Goes b p t o
  offers {b} at_opened q f e g =
      Go-answered channel (Goes b) (λ o. channel-wait_for_reader who o _ _ _ _ _ _ _ _)
        (joint who i r j s (meeting at_writing q) (hush_a f) (omega (arith, e))) g
  offers {b} at_writing at_waiting f e g =
      Go-answered channel (Goes b) (λ o. channel-write who o _ _ _ _ _ _ _ _)
        (joint who i r j s (handed (away at_leaving) at_waiting) (hush_a f) (omega (arith, e))) g
  offers {b} at_writing at_reading f e g =
      Go-answered channel (Goes b) (λ o. channel-write who o _ _ _ _ _ _ _ _)
        (joint who i r j s (handed (away at_leaving) at_reading) (hush_a f) (omega (arith, e))) g

  pub hands :
      {a b : Place} {m : Bool} {u : List ℕ} {p : Process} {t : Channel} {o : List Line}
      → Idle (not who) xs a m
      → Awaits b
      → Facts typed who xs ys (u ∷ []) [] po qo
      → cost who a xs + cost (not who) b ys ≡ suc n
      → Go channel who
          (view who (writes a) (reads a) m xs (writes b) (reads b) true ys (some (u ++ (0 ∷ []))))
          (prog who a xs i r)
          p
          t
          o
      → Goes b p t o
  hands {b} (away at_leaving) q f e g =
      Go-answered channel (Goes b) (λ o. channel-close_write_end who o _ _ _ _ _ _ _ _ _)
        (joint who i r j s (handed (away at_entering) q) (hush_a f) (omega (arith, e))) g
  hands {b} (away at_entering) at_waiting f e g = enters who _ _ _ _ xs _ _ i r g (Goes b) (λ h.
      joint who i r j s (handed (waits (λ e. h (ground arith))) at_waiting) (hush_a f)
        (omega (arith, e, cost-entering who xs h)))
  hands {b} (away at_entering) at_reading f e g = enters who _ _ _ _ xs _ _ i r g (Goes b) (λ h.
      joint who i r j s (handed (waits (λ e. h (ground arith))) at_reading) (hush_a f)
        (omega (arith, e, cost-entering who xs h)))
  hands (waits h) q f e g =
      Go-blocked channel (λ o. channel-wait_for_writer_alone who o _ _ _ _ _ _ _ _) g

  pub front :
      {a b : Place} {m m' : Bool} {x : Option (List ℕ)} {pa pb : List (List ℕ)} {p : Process}
      {t : Channel} {o : List Line}
      → Phase who xs ys a b m m' x pa pb
      → Facts typed who xs ys pa pb po qo
      → cost who a xs + cost (not who) b ys ≡ suc n
      → Go channel who
          (view who (writes a) (reads a) m xs (writes b) (reads b) m' ys x)
          (prog who a xs i r)
          p
          t
          o
      → Goes b p t o
  front (apart a b) f e g = ahead _ a b f e g
  front (alone b) f e g =
      Go-blocked channel (λ o. channel-wait_for_reader_alone who o _ _ _ _ _ _ _ _) g
  front (meeting a b) f e g = offers a b f e g
  front (handed a b) f e g = hands a b f e g
