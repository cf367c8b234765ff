-- ===== src/Ipc/Fifo/Answers.antt =====
-- The FIFO programs: the FIFO as one process and the other one see it, and its answers.
use linux_system_programming.Prelude.{
  ℕ, ℤ, pos, Bool, true, false, ◌||◌, List, [], ◌∷◌, ◌++◌, Option, none, some, ◌≡◌, refl,
}
use linux_system_programming.Sys.{Reply, End}
use linux_system_programming.Ipc.Fifo.{
  fgets, take_write_end, wait_for_reader, take_read_end, wait_for_writer, write, read,
  close_write_end, close_read_end,
}
use linux_system_programming.Ipc.Fifo.Channel.{Channel, channel}
use linux_system_programming.Ipc.Fifo.Round.{IsLine, whole}

-- The FIFO as one process and the other one see it.
unfoldable pub view :
    Bool
    → Bool
    → Bool
    → Bool
    → List (List ℕ)
    → Bool
    → Bool
    → Bool
    → List (List ℕ)
    → Option (List ℕ)
    → Channel
view true w r m ts w' r' m' ts' b = record {
  exists = true;
  bytes = b;
  w_writes = w;
  w_reads = r;
  w_met = m;
  w_typed = ts;
  r_writes = w';
  r_reads = r';
  r_met = m';
  r_typed = ts';
}
view false w r m ts w' r' m' ts' b = record {
  exists = true;
  bytes = b;
  r_writes = w;
  r_reads = r;
  r_met = m;
  r_typed = ts;
  w_writes = w';
  w_reads = r';
  w_met = m';
  w_typed = ts';
}

abbrev pub value : ℤ → Reply
value n = record { ret = n; errno = 0; text = [] }

-- The answers of the FIFO.
pub channel-take_write_end :
    (who : Bool) (o : Option End) (w r m w' r' m' : Bool) (ts ts' : List (List ℕ))
    (b : Option (List ℕ))
    → channel who o take_write_end (view who w r m ts w' r' m' ts' b)
      ≡ some (value (pos 1), view who true r r' ts w' r' (r' || m') ts' b)
unfolding channel view
channel-take_write_end true o w r m w' r' m' ts ts' b = refl
channel-take_write_end false o w r m w' r' m' ts ts' b = refl

pub channel-take_read_end :
    (who : Bool) (o : Option End) (w r m w' r' m' : Bool) (ts ts' : List (List ℕ))
    (b : Option (List ℕ))
    → channel who o take_read_end (view who w r m ts w' r' m' ts' b)
      ≡ some (value (pos 1), view who w true w' ts w' r' (w' || m') ts' b)
unfolding channel view
channel-take_read_end true o w r m w' r' m' ts ts' b = refl
channel-take_read_end false o w r m w' r' m' ts ts' b = refl

pub channel-wait_for_reader :
    (who : Bool) (o : Option End) (w r w' r' m' : Bool) (ts ts' : List (List ℕ))
    (b : Option (List ℕ))
    → channel who o wait_for_reader (view who w r true ts w' r' m' ts' b)
      ≡ some (value (pos 1), view who w r true ts w' r' m' ts' b)
unfolding channel view
channel-wait_for_reader true o w r w' r' m' ts ts' b = refl
channel-wait_for_reader false o w r w' r' m' ts ts' b = refl

pub channel-wait_for_reader_alone :
    (who : Bool) (o : Option End) (w r w' r' m' : Bool) (ts ts' : List (List ℕ))
    (b : Option (List ℕ))
    → channel who o wait_for_reader (view who w r false ts w' r' m' ts' b) ≡ none
unfolding channel view
channel-wait_for_reader_alone true o w r w' r' m' ts ts' b = refl
channel-wait_for_reader_alone false o w r w' r' m' ts ts' b = refl

pub channel-wait_for_writer :
    (who : Bool) (o : Option End) (w r w' r' m' : Bool) (ts ts' : List (List ℕ))
    (b : Option (List ℕ))
    → channel who o wait_for_writer (view who w r true ts w' r' m' ts' b)
      ≡ some (value (pos 1), view who w r true ts w' r' m' ts' b)
unfolding channel view
channel-wait_for_writer true o w r w' r' m' ts ts' b = refl
channel-wait_for_writer false o w r w' r' m' ts ts' b = refl

pub channel-wait_for_writer_alone :
    (who : Bool) (o : Option End) (w r w' r' m' : Bool) (ts ts' : List (List ℕ))
    (b : Option (List ℕ))
    → channel who o wait_for_writer (view who w r false ts w' r' m' ts' b) ≡ none
unfolding channel view
channel-wait_for_writer_alone true o w r w' r' m' ts ts' b = refl
channel-wait_for_writer_alone false o w r w' r' m' ts ts' b = refl

pub channel-write :
    (who : Bool) (o : Option End) (w r m w' m' : Bool) (ts ts' : List (List ℕ)) (t : List ℕ)
    → channel who o (write t) (view who w r m ts w' true m' ts' none)
      ≡ some (value (pos 1), view who w r m ts w' true m' ts' (some t))
unfolding channel view
channel-write true o w r m w' m' ts ts' t = refl
channel-write false o w r m w' m' ts ts' t = refl

pub channel-read_empty :
    (who : Bool) (o : Option End) (w r m r' m' : Bool) (ts ts' : List (List ℕ))
    → channel who o (read 1024) (view who w r m ts true r' m' ts' none) ≡ none
unfolding channel view
channel-read_empty true o w r m r' m' ts ts' = refl
channel-read_empty false o w r m r' m' ts ts' = refl

pub channel-close_write_end :
    (who : Bool) (o : Option End) (w r m w' r' m' : Bool) (ts ts' : List (List ℕ))
    (b : Option (List ℕ))
    → channel who o close_write_end (view who w r m ts w' r' m' ts' b)
      ≡ some (value (pos 1), view who false r m ts w' r' m' ts' b)
unfolding channel view
channel-close_write_end true o w r m w' r' m' ts ts' b = refl
channel-close_write_end false o w r m w' r' m' ts ts' b = refl

pub channel-close_read_end :
    (who : Bool) (o : Option End) (w r m w' r' m' : Bool) (ts ts' : List (List ℕ))
    (b : Option (List ℕ))
    → channel who o close_read_end (view who w r m ts w' r' m' ts' b)
      ≡ some (value (pos 1), view who w false m ts w' r' m' ts' b)
unfolding channel view
channel-close_read_end true o w r m w' r' m' ts ts' b = refl
channel-close_read_end false o w r m w' r' m' ts ts' b = refl

pub channel-fgets :
    (who : Bool) (o : Option End) (w r m w' r' m' : Bool) (ts ts' : List (List ℕ))
    (b : Option (List ℕ)) (t : List ℕ)
    → channel who o (fgets 1024) (view who w r m (t ∷ ts) w' r' m' ts' b)
      ≡ some (record { ret = pos 1; errno = 0; text = t }, view who w r m ts w' r' m' ts' b)
unfolding channel view
channel-fgets true o w r m w' r' m' ts ts' b t = refl
channel-fgets false o w r m w' r' m' ts ts' b t = refl

pub channel-read :
    (who : Bool) (o : Option End) (w r m w' r' m' : Bool) (ts ts' : List (List ℕ)) (t : List ℕ)
    → IsLine t
    → channel who o (read 1024) (view who w r m ts w' r' m' ts' (some (t ++ (0 ∷ []))))
      ≡ some (
        record { ret = pos 1; errno = 0; text = t ++ (0 ∷ []) },
        view who w r m ts w' r' m' ts' none,
      )
unfolding channel view
channel-read true o w r m w' r' m' ts ts' t h = let (x, y) = whole t h in rw (x, y) refl
channel-read false o w r m w' r' m' ts ts' t h = let (x, y) = whole t h in rw (x, y) refl
