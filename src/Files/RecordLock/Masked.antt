-- ===== src/Files/RecordLock/Masked.antt =====
-- record_lock_test.c: the loop over the array, and the record that is written back.
use linux_system_programming.Prelude.{
  ℕ, zero, suc, ◌+◌, ◌-◌, ◌≤◌, ◌^◌, ◌<◌, pos, false, ◌||◌, List, [], ◌∷◌, ◌++◌, map, some, ◌==◌,
  ltb, if◌then◌else◌, ◌≡◌, refl, arith, length, take, drop, zeros, drop-length, take-eq-append,
  take-overlay, get_elem?-append, set-append, take-length, append_assoc, map-append, append-nil, ap,
  length-append, ◌∙◌, sym, length-map, length-take, length-replicate, length-drop, Bool-cases, inl,
  inr,
}
use linux_system_programming.Sys.{str, out, run, exited, halted}
use linux_system_programming.Libc.{c_string, overlay}
use linux_system_programming.Files.RecordLock.{
  set_lock, lseek, read, write, sleep, close, f_unlck, lock_type, record_lock, modify, process,
  bufsize,
}
use linux_system_programming.Files.RecordLock.Disk.{Disk, disk, put_at, store_at}

-- What the loop makes of one byte.
abbrev pub mask : ℕ → ℕ
mask c = if c == b'0' || c == b'9' then b'x' else c

-- The loop's state one byte further on.
modify-next :
    (n : ℕ) (xs ys : List ℕ) (c : ℕ) (r : List ℕ)
    → modify n (length (xs ++ (c ∷ []))) ((xs ++ (c ∷ [])) ++ ys) ≡ some ((xs ++ (c ∷ [])) ++ r)
    → modify n (length xs + 1) (xs ++ (c ∷ ys)) ≡ some (xs ++ (c ∷ r))
modify-next n xs ys c r h =
    let e : length (xs ++ (c ∷ [])) ≡ length xs + 1 = length-append xs (c ∷ []) in
    rw (e, append_assoc, append_assoc) at h

modify-append :
    (n : ℕ) (xs ys : List ℕ)
    → n ≤ length ys
    → modify n (length xs) (xs ++ ys) ≡ some (xs ++ (map mask (take n ys) ++ drop n ys))
unfolding modify
modify-append zero xs ys h = refl
modify-append (suc n) xs [] h = elim h [ ]
modify-append (suc n) xs (y ∷ ys) h =
    rw (get_elem?-append xs ys y, modify)
      (rw (set-append xs ys y b'x') (elim (Bool-cases (y == b'0' || y == b'9')) [
        | inl t ↦
            rw t (modify-next n xs ys b'x' _ (modify-append n (xs ++ (b'x' ∷ [])) ys (omega arith)))
        | inr t ↦ rw t (modify-next n xs ys y _ (modify-append n (xs ++ (y ∷ [])) ys (omega arith)))
      ]))

-- The loop changes the first `n` bytes by `mask`, leaves the rest and stays inside the array.
pub modify_lem :
    (n : ℕ) (buf : List ℕ)
    → n ≤ length buf
    → modify n 0 buf ≡ some (map mask (take n buf) ++ drop n buf)
modify_lem n buf h = modify-append n [] buf h

-- What the read leaves in the array, and what the loop makes of it.
abbrev pub loaded : ℕ → ℕ → List ℕ → List ℕ
loaded a n bytes = overlay (take n (drop a bytes)) (zeros bufsize)

abbrev pub changed : ℕ → ℕ → List ℕ → List ℕ
changed a n bytes = map mask (take n (loaded a n bytes)) ++ drop n (loaded a n bytes)

length-loaded : (a n : ℕ) (bytes : List ℕ) → n ≤ bufsize → n ≤ length (loaded a n bytes)
length-loaded a n bytes h = omega (
  arith,
  length-append (take n (drop a bytes)) (drop (length (take n (drop a bytes))) (zeros bufsize)),
  length-drop (length (take n (drop a bytes))) (zeros bufsize),
  length-replicate {A = ℕ} bufsize 0,
)

pub process-disk :
    (a n : ℕ) (d : Disk) {text : List ℕ}
    → n ≤ bufsize
    → c_string (loaded a n d.bytes) ≡ some text
    → run disk (process (pos 3) (pos a) (pos n)) d ≡ record {
      result = halted (exited (pos 0));
      state = record d {
        bytes = store_at a (take n (changed a n d.bytes)) d.bytes;
        offset = a + length (take n (changed a n d.bytes));
      };
      calls =
          lseek (pos 3) (pos a)
          ∷ read (pos 3) n
          ∷ lseek (pos 3) (pos a)
          ∷ write (pos 3) (changed a n d.bytes) n
          ∷ sleep 20
          ∷ set_lock f_unlck (pos 3) (pos a) (pos n)
          ∷ close (pos 3)
          ∷ [];
      lines = out "record data = %s\n" (str text ∷ []) ∷ out "record lock process done\n" [] ∷ [];
    }
unfolding process disk record_lock lock_type
process-disk a n d small shown =
    let f : ltb (2 ^ 63 - 1) n ≡ false = ground arith in
    let g : ltb bufsize (length (take n (drop a d.bytes))) ≡ false =
      ground (arith, length-take n (drop a d.bytes)) in
    rw f (
      rw g (
        rw shown (rw (modify_lem n (loaded a n d.bytes) (length-loaded a n d.bytes small)) (rw f))))

-- The record as the program writes it back: the file's bytes masked, and NULs where the file ends
-- inside of the record.
abbrev pub written : ℕ → ℕ → List ℕ → List ℕ
written a n bytes = map mask (take n (drop a bytes)) ++ zeros (n - length (drop a bytes))

map-mask-zeros : (n : ℕ) → map mask (zeros n) ≡ zeros n
map-mask-zeros zero = refl
map-mask-zeros (suc n) = ap (λ l. 0 ∷ l) (map-mask-zeros n)

pub take-changed :
    (a n : ℕ) (bytes : List ℕ) → n ≤ bufsize → take n (changed a n bytes) ≡ written a n bytes
take-changed a n bytes h =
    take-eq-append n (map mask (take n (loaded a n bytes))) (drop n (loaded a n bytes)) (
      omega (
        arith,
        length-map (take n (loaded a n bytes)) mask,
        length-take n (loaded a n bytes),
        length-loaded a n bytes h,
      ))
    ∙ ap (map mask) (take-overlay n bufsize (drop a bytes) h)
    ∙ (map-append mask (take n (drop a bytes)) (zeros (n - length (drop a bytes)))
        ∙ ap (λ l. map mask (take n (drop a bytes)) ++ l)
            (map-mask-zeros (n - length (drop a bytes))))

-- A record inside of the file: outside of it nothing changes, and the file keeps its length.
pub put_at-written :
    (a n : ℕ) (bytes : List ℕ)
    → a + n ≤ length bytes
    → put_at a (written a n bytes) bytes
      ≡ take a bytes ++ (map mask (take n (drop a bytes)) ++ drop (a + n) bytes)
put_at-written a n bytes h =
    let e : a - length bytes ≡ 0 = omega arith in
    let f : n - length (drop a bytes) ≡ 0 = omega (arith, length-drop a bytes) in
    let g : length (map mask (take n (drop a bytes))) ≡ n = omega (
      arith,
      length-map (take n (drop a bytes)) mask,
      length-take n (drop a bytes),
      length-drop a bytes,
    ) in
    rw (e, f) (rw append-nil (rw g))

-- A record that runs past the end: the file grows to the end of the record, with NULs.
pub put_at-written_past :
    (a n : ℕ) (bytes : List ℕ)
    → a ≤ length bytes
    → length bytes < a + n
    → put_at a (written a n bytes) bytes
      ≡ take a bytes ++ (map mask (drop a bytes) ++ zeros (a + n - length bytes))
put_at-written_past a n bytes h past =
    let e : a - length bytes ≡ 0 = omega arith in
    let f : n - length (drop a bytes) ≡ a + n - length bytes = omega (arith, length-drop a bytes) in
    let g : take n (drop a bytes) ≡ drop a bytes =
      take-length n (drop a bytes) (omega (arith, length-drop a bytes)) in
    let l : a + length (map mask (drop a bytes) ++ zeros (a + n - length bytes)) ≡ a + n = omega (
      arith,
      length-append (map mask (drop a bytes)) (zeros (a + n - length bytes)),
      length-map (drop a bytes) mask,
      length-drop a bytes,
      length-replicate {A = ℕ} (a + n - length bytes) 0,
    ) in
    rw (e, f, g) (rw l (rw (drop-length (a + n) bytes (omega arith)) (rw append-nil)))

take-append-drop : (i : ℕ) (xs : List ℕ) → take i xs ++ drop i xs ≡ xs
take-append-drop zero xs = refl
take-append-drop (suc i) [] = refl
take-append-drop (suc i) (x ∷ xs) = ap (λ l. x ∷ l) (take-append-drop i xs)

-- A write that starts inside of the file leaves no gap.
pub store_at-put_at :
    (i : ℕ) (new old : List ℕ) → i ≤ length old → store_at i new old ≡ put_at i new old
store_at-put_at i (x ∷ xs) old h = refl
store_at-put_at i [] old h =
    let e : i - length old ≡ 0 = omega arith in
    let f : i + 0 ≡ i = omega arith in sym (rw (e, f) (take-append-drop i old))
