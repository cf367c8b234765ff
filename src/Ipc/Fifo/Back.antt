-- ===== src/Ipc/Fifo/Back.antt =====
-- The FIFO programs: what the other process does.
use linux_system_programming.Prelude.{
  ℕ, suc, ◌+◌, Bool, true, false, not, List, [], ◌∷◌, ◌++◌, Option, none, some, ◌≡◌, arith, subst,
  sym, ◌||◌,
}
use linux_system_programming.Sys.{Line, call}
use linux_system_programming.Pair.Go.{both, Go, Go-answered, Go-blocked}
use linux_system_programming.Ipc.Fifo.{close_read_end}
use linux_system_programming.Ipc.Fifo.Channel.{Channel, channel}
use linux_system_programming.Ipc.Fifo.Answers.{
  view, channel-wait_for_writer, channel-wait_for_writer_alone, channel-read, channel-read_empty,
  channel-close_write_end,
}
use linux_system_programming.Ipc.Fifo.Round.{holding}
use linux_system_programming.Ipc.Fifo.Places.{Process, received, show_message-line}
use linux_system_programming.Ipc.Fifo.Front.{enters}
use linux_system_programming.Ipc.Fifo.Joint.{
  Place, opened, entering, waiting, behind, prog, cost, cost-entering, writes, reads, NonEmpty,
  Ahead, at_closing, at_showing, at_prompting, at_typing, at_taking, Away, at_leaving, at_entering,
  Idle, away, waits, Offers, at_opened, at_writing, Awaits, at_waiting, at_reading, Phase, apart,
  alone, meeting, handed, Facts, Joint, Joint-idle, Joint-front, hush_a, hush_b, Facts-turn,
}

module _ (typed : Bool → List (List ℕ)) (who : Bool) (xs ys : List (List ℕ)) (i r j s : List ℕ)
    (po qo : List Line) (n : ℕ) where
  -- The other one goes on, and the one in front stays at `a` with all it has.
  abbrev Goes : Place → Process → Channel → List Line → Type 0
  Goes a p t o = Joint typed n (both (not who) p (prog who a xs i r) t (qo ++ o) po)

  entered :
      {a : Place} (m : Bool) {pa pb : List (List ℕ)}
      → Ahead xs a pa pb
      → Facts typed who xs ys pa pb po qo
      → cost who a xs + cost (not who) entering ys ≡ suc n
      → (not who ≡ false → NonEmpty ys)
      → Goes a
          (prog (not who) waiting ys j s)
          (view (not who) false true (writes a) ys (writes a) (reads a) (writes a || m) xs none)
          []
  entered m at_closing f e h =
      Joint-idle who i r j s (apart at_closing (waits (λ z. h (ground arith)))) (hush_b f)
        (omega (arith, e, cost-entering (not who) ys h))
  entered m at_showing f e h =
      Joint-idle who i r j s (apart at_showing (waits (λ z. h (ground arith)))) (hush_b f)
        (omega (arith, e, cost-entering (not who) ys h))
  entered m at_prompting f e h =
      Joint-idle who i r j s (apart at_prompting (waits (λ z. h (ground arith)))) (hush_b f)
        (omega (arith, e, cost-entering (not who) ys h))
  entered m (at_typing x) f e h =
      Joint-idle who i r j s (apart (at_typing x) (waits (λ z. h (ground arith)))) (hush_b f)
        (omega (arith, e, cost-entering (not who) ys h))
  entered m at_taking f e h =
      Joint-idle who i r j s (apart at_taking (waits (λ z. h (ground arith)))) (hush_b f)
        (omega (arith, e, cost-entering (not who) ys h))

  pub idles :
      (m : Bool) {a b : Place} {m' : Bool} {pa pb : List (List ℕ)} {p : Process} {t : Channel}
      {o : List Line}
      → Ahead xs a pa pb
      → Idle who ys b m'
      → Facts typed who xs ys pa pb po qo
      → cost who a xs + cost (not who) b ys ≡ suc n
      → Go channel
          (not who)
          (view (not who) (writes b) (reads b) m' ys (writes a) (reads a) m xs none)
          (prog (not who) b ys j s)
          p
          t
          o
      → Goes a p t o
  idles m {a} h (away at_leaving) f e g =
      Go-answered channel (Goes a) (λ o. channel-close_write_end (not who) o _ _ _ _ _ _ _ _ _)
        (Joint-idle who i r j s (apart h (away at_entering)) (hush_b f) (omega (arith, e))) g
  idles m {a} h (away at_entering) f e g =
      enters (not who) _ _ _ _ ys _ _ j s g (Goes a) (entered m h f e)
  idles m h (waits x) f e g =
      Go-blocked channel (λ o. channel-wait_for_writer_alone (not who) o _ _ _ _ _ _ _ _) g

  pub comes :
      (m' : Bool) {b : Place} {u : List ℕ} {p : Process} {t : Channel} {o : List Line}
      → Away b
      → Facts typed who xs ys (u ∷ []) [] po qo
      → cost who (opened u) xs + cost (not who) b ys ≡ suc n
      → Go channel
          (not who)
          (view (not who) (writes b) (reads b) m' ys true false false xs none)
          (prog (not who) b ys j s)
          p
          t
          o
      → Goes (opened u) p t o
  comes m' {u} at_leaving f e g =
      Go-answered channel (Goes (opened u))
        (λ o. channel-close_write_end (not who) o _ _ _ _ _ _ _ _ _)
        (Joint-idle who i r j s (alone at_entering) (hush_b f) (omega (arith, e))) g
  comes m' {u} at_entering f e g = enters (not who) _ _ _ _ ys _ _ j s g (Goes (opened u)) (λ h.
      Joint-idle who i r j s (meeting at_opened at_waiting) (hush_b f)
        (omega (arith, e, cost-entering (not who) ys h)))

  pub awaits :
      {a b : Place} {u : List ℕ} {p : Process} {t : Channel} {o : List Line}
      → Offers a u
      → Awaits b
      → Facts typed who xs ys (u ∷ []) [] po qo
      → cost who a xs + cost (not who) b ys ≡ suc n
      → Go channel
          (not who)
          (view (not who) (writes b) (reads b) true ys (writes a) (reads a) true xs none)
          (prog (not who) b ys j s)
          p
          t
          o
      → Goes a p t o
  awaits {a} h at_waiting f e g =
      Go-answered channel (Goes a) (λ o. channel-wait_for_writer (not who) o _ _ _ _ _ _ _ _)
        (Joint-idle who i r j s (meeting h at_reading) (hush_b f) (omega (arith, e))) g
  awaits at_opened at_reading f e g =
      Go-blocked channel (λ o. channel-read_empty (not who) o _ _ _ _ _ _ _) g
  awaits at_writing at_reading f e g =
      Go-blocked channel (λ o. channel-read_empty (not who) o _ _ _ _ _ _ _) g

  pub gets :
      (m : Bool) {a b : Place} {u : List ℕ} {p : Process} {t : Channel} {o : List Line}
      → Idle (not who) xs a m
      → Awaits b
      → Facts typed who xs ys (u ∷ []) [] po qo
      → cost who a xs + cost (not who) b ys ≡ suc n
      → Go channel
          (not who)
          (view
            (not who)
            (writes b)
            (reads b)
            true
            ys
            (writes a)
            (reads a)
            m
            xs
            (some (u ++ (0 ∷ []))))
          (prog (not who) b ys j s)
          p
          t
          o
      → Goes a p t o
  gets m {a} h at_waiting f e g =
      Go-answered channel (Goes a) (λ o. channel-wait_for_writer (not who) o _ _ _ _ _ _ _ _)
        (Joint-idle who i r j s (handed h at_reading) (hush_b f) (omega (arith, e))) g
  gets m {a} {u} h at_reading f e g =
      Go-answered channel (Goes a) (λ o. channel-read (not who) o _ _ _ _ _ _ _ _ u f.lines_a.0)
        (subst
          (λ p.
            Goes a (call close_read_end (λ _. p))
              (view (not who) false true true ys (writes a) (reads a) m xs none) [])
          (sym (show_message-line (received (not who) (behind (not who) ys) j) u s f.lines_a.0))
          (Joint-front who i r j (holding u s) (apart at_closing h) (hush_a (Facts-turn who f))
            (omega (arith, e))))
        g

  pub back :
      {a b : Place} {m m' : Bool} {x : Option (List ℕ)} {pa pb : List (List ℕ)} {p : Process}
      {t : Channel} {o : List Line}
      → Phase who xs ys a b m m' x pa pb
      → Facts typed who xs ys pa pb po qo
      → cost who a xs + cost (not who) b ys ≡ suc n
      → Go channel
          (not who)
          (view (not who) (writes b) (reads b) m' ys (writes a) (reads a) m xs x)
          (prog (not who) b ys j s)
          p
          t
          o
      → Goes a p t o
  back (apart a b) f e g = idles _ a b f e g
  back (alone b) f e g = comes _ b f e g
  back (meeting a b) f e g = awaits a b f e g
  back (handed a b) f e g = gets _ a b f e g
