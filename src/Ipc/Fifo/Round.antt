-- ===== src/Ipc/Fifo/Round.antt =====
-- One round of the FIFO programs: each sends a line and gets the other one's.
use linux_system_programming.Prelude.{
  ℕ, suc, ◌≤◌, ◌<◌, Bool, true, false, List, [], ◌∷◌, ◌++◌, none, some, ◌≡◌, arith, length, leb,
  take, drop, append_assoc, append-nil, take-length, length-append,
}
use linux_system_programming.Sys.{Line, str, out, Prog, ◌>>=◌, ◌>>◌, Reply}
use linux_system_programming.Libc.{c_string, overlay, IsText, c_string-append}
use linux_system_programming.Pair.{Pair, step, play}
use linux_system_programming.Ipc.Fifo.{
  Call, input_message, write_message, read_message, show_message, write_rounds, read_rounds,
}
use linux_system_programming.Ipc.Fifo.Channel.{Channel, channel}

-- A line that fgets takes whole: no NULs, and room for its NUL in the array.
abbrev pub IsLine : List ℕ → Type 0
IsLine t = IsText t × (length t < 1024)

-- An array behind a store of a line with its NUL.
abbrev pub holding : List ℕ → List ℕ → List ℕ
holding t array = overlay (t ++ (0 ∷ [])) array

pub c_string-holding : (t array : List ℕ) → IsLine t → c_string (holding t array) ≡ some t
c_string-holding t array (h, _) =
    rw (append_assoc t (0 ∷ []) (drop (length (t ++ (0 ∷ []))) array))
      (c_string-append t (drop (length (t ++ (0 ∷ []))) array) h)

length-line : (t : List ℕ) → IsLine t → length (t ++ (0 ∷ [])) ≤ 1024
length-line t (_, h) = omega (arith, length-append t (0 ∷ []))

-- A read takes a line with its NUL whole.
pub whole :
    (t : List ℕ)
    → IsLine t
    → (leb (length (t ++ (0 ∷ []))) 1024 ≡ true) × (take 1024 (t ++ (0 ∷ [])) ≡ t ++ (0 ∷ []))
whole t h = let z = length-line t h in (ground arith, take-length 1024 (t ++ (0 ∷ [])) z)

-- Both processes in front of a round, with nothing in the FIFO.
abbrev pub between : List (List ℕ) → List (List ℕ) → Bool → Bool → Channel
between ws rs a b = record {
  exists = true;
  bytes = none;
  w_writes = false;
  w_reads = false;
  w_met = a;
  w_typed = ws;
  r_writes = false;
  r_reads = false;
  r_met = b;
  r_typed = rs;
}

-- What follows the writer's prompt and fgets: the writer takes its end, the reader the other one, …
abbrev pub exchange : List Bool
exchange =
    true  -- take_write_end
    ∷ false  -- take_read_end
    ∷ true ∷ true ∷ true ∷ true  -- wait, write, close, take_read_end
    ∷ false ∷ false ∷ false ∷ false  -- wait, read, close, show
    ∷ false ∷ false ∷ false ∷ false ∷ false ∷ false  -- prompt, fgets, take_write_end, wait, write, close
    ∷ true ∷ true ∷ true ∷ true  -- wait, read, close, show
    ∷ []

abbrev pub round : List Bool
round = true ∷ true ∷ exchange

abbrev pub prompt : Line
prompt = out "input message: " []

abbrev pub shown : List ℕ → Line
shown t = out "read: %s" (str t ∷ [])

-- The writer behind its fgets.
abbrev pub typed_in : ℕ → List ℕ → List ℕ → Prog Call Reply (Unit {0})
typed_in n input readbuf = do
  write_message input
  received ← read_message readbuf
  show_message received
  write_rounds n input received

-- Both processes in front of a round, and behind the writer's fgets.
abbrev pub facing :
    (n : ℕ) (wi wr ri rr : List ℕ) (c : Channel) (ow or : List Line) → Pair Call Reply Channel
facing n wi wr ri rr c ow or = record {
  parent = write_rounds n wi wr;
  child = read_rounds n ri rr;
  shared = c;
  parent_out = ow;
  child_out = or;
}

abbrev pub entered :
    (n : ℕ) (input wr ri rr : List ℕ) (c : Channel) (ow or : List Line) → Pair Call Reply Channel
entered n input wr ri rr c ow or = record {
  parent = typed_in n input wr;
  child = read_rounds (suc n) ri rr;
  shared = c;
  parent_out = ow ++ (prompt ∷ []);
  child_out = or;
}

module _ (n : ℕ) (w r : List ℕ) (ws rs : List (List ℕ)) (wi wr ri rr : List ℕ) (ow or : List Line)
    (a b : Bool) where
  pub play-exchange :
      IsLine w
      → IsLine r
      → play channel exchange (entered n (holding w wi) wr ri rr (between ws (r ∷ rs) a b) ow or)
        ≡ some (
            facing n
              (holding w wi)
              (holding r wr)
              (holding r ri)
              (holding w rr)
              (between ws rs true true)
              ((ow ++ (prompt ∷ [])) ++ (shown r ∷ []))
              ((or ++ (shown w ∷ [])) ++ (prompt ∷ [])))
  unfolding play step channel input_message write_message read_message show_message write_rounds
      read_rounds
  play-exchange hw hr =
      let cw = c_string-holding w wi hw in
      let cw' = c_string-holding w rr hw in
      let cr = c_string-holding r ri hr in
      let cr' = c_string-holding r wr hr in
      let (lw, tw) = whole w hw in
      let (lr, tr) = whole r hr in
      rw (cw, play)
        (rw (lw, play)
          (rw (tw, play)
            (rw (cw', play)
              (rw (cr, play) (rw (lr, play) (rw (tr, play) (rw (cr', play) (simp append-nil))))))))
