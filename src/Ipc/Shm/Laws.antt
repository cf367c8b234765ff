-- ===== src/Ipc/Shm/Laws.antt =====
-- The shared memory programs: the line that one process types is the line that the other prints.
use linux_system_programming.Prelude.{
  ℕ, zero, suc, pos, true, false, List, [], ◌∷◌, ◌++◌, Option, none, some, ◌==◌, length, ◌≡◌, refl,
  append_assoc, ◌≤◌, arith, leb, length-append, length-take, length-drop, length-replicate, drop,
  Bool-cases, inl, inr, zeros,
}
use linux_system_programming.Sys.{str, out, halted, exited, run}
use linux_system_programming.Libc.{c_string, overlay, IsText, c_string-append}
use linux_system_programming.Ipc.Shm.{posix_write, posix_read, sysv_write, sysv_read}
use linux_system_programming.Ipc.Shm.Memory.{Memory, line, resized, shm}

line-IsText : (n : ℕ) (input : List ℕ) → IsText input → IsText (line n input)
unfolding line
line-IsText zero input h = tt
line-IsText (suc n) [] h = tt
line-IsText (suc n) (c ∷ input) h = elim (Bool-cases (c == 10)) [
  | inl e ↦ rw e (h.0, tt)
  | inr e ↦ rw e (h.0, line-IsText n input h.1)
]

c_string-typed :
    (input old : List ℕ)
    → IsText input
    → c_string (overlay (line 1023 input ++ (0 ∷ [])) old) ≡ some (line 1023 input)
c_string-typed input old h =
    let t = line 1023 input in
    rw (append_assoc t (0 ∷ []) (drop (length (t ++ (0 ∷ []))) old))
      (c_string-append t (drop (length (t ++ (0 ∷ []))) old) (line-IsText 1023 input h))

length-line : (n : ℕ) (input : List ℕ) → length (line n input) ≤ n
unfolding line
length-line zero input = omega arith
length-line (suc n) [] = omega arith
length-line (suc n) (c ∷ input) = elim (Bool-cases (c == 10)) [
  | inl e ↦ rw e (omega arith)
  | inr e ↦ rw e (omega (arith, length-line n input))
]

-- A typed line with its NUL fits 1024 bytes.
fits :
    (input old : List ℕ)
    → 1024 ≤ length old
    → leb (length (line 1023 input ++ (0 ∷ []))) (length old) ≡ true
fits input old h =
    let l : length (line 1023 input ++ (0 ∷ [])) ≤ length old =
      omega (arith, h, length-append (line 1023 input) (0 ∷ []), length-line 1023 input) in
    ground arith

length-resized : (bytes : List ℕ) → 1024 ≤ length (resized 1024 bytes)
length-resized bytes = omega (
  arith,
  length-take 1024 (bytes ++ zeros 1024),
  length-append bytes (zeros 1024),
  length-replicate {A = ℕ} 1024 0,
)

-- What the objects hold after a line was typed over them; a new object is all zeros.
abbrev posix_old : Option (List ℕ) → List ℕ
posix_old none = resized 1024 []
posix_old (some old) = resized 1024 old

abbrev sysv_old : Option (List ℕ) → List ℕ
sysv_old none = zeros 1024
sysv_old (some old) = old

abbrev stored : List ℕ → List ℕ → List ℕ
stored input old = overlay (line 1023 input ++ (0 ∷ [])) old

-- A segment that exists is long enough.
abbrev pub IsLong : Option (List ℕ) → Type 0
IsLong none = Unit
IsLong (some old) = 1024 ≤ length old

posix_write-run :
    (c : ℕ) (input : List ℕ) (object : Option (List ℕ))
    → IsText (c ∷ input)
    → let m : Memory = record {
      object = object;
      input = c ∷ input;
      refuse = false;
      fault = false;
    } in
      let w = run shm posix_write m in
      (w.result ≡ halted (exited (pos 0)))
      × (w.state ≡ record m { object = some (stored (c ∷ input) (posix_old object)) })
      × (w.lines
          ≡ out "Input data: " []
            ∷ out "Written data: %s\n" (str (line 1023 (c ∷ input)) ∷ [])
            ∷ [])
unfolding posix_write shm
posix_write-run c input none h =
    rw (fits (c ∷ input) (resized 1024 []) (length-resized []))
      (rw (c_string-typed (c ∷ input) (resized 1024 []) h) (refl, refl, refl))
posix_write-run c input (some old) h =
    rw (fits (c ∷ input) (resized 1024 old) (length-resized old))
      (rw (c_string-typed (c ∷ input) (resized 1024 old) h) (refl, refl, refl))

posix_read-run :
    (bytes input text : List ℕ)
    → c_string bytes ≡ some text
    → let r =
        run shm posix_read
          (record { object = some bytes; input = input; refuse = false; fault = false }) in
      (r.result ≡ halted (exited (pos 0)))
      × (r.lines ≡ out "data: %s" (str text ∷ []) ∷ [])
      × (r.state.object ≡ none)
unfolding posix_read shm
posix_read-run bytes input text h = rw h (refl, refl, refl)

-- The first line of an input that is not empty and has no NUL, cut to 1023 characters, is what the
-- POSIX writer echoes and what the reader then prints; the object is gone afterwards. It does not
-- matter whether an object was there before, and what it held.
pub posix_read-posix_write :
    (c : ℕ) (input : List ℕ) (object : Option (List ℕ))
    → IsText (c ∷ input)
    → let m : Memory = record {
      object = object;
      input = c ∷ input;
      refuse = false;
      fault = false;
    } in
      let w = run shm posix_write m in
      let r = run shm posix_read w.state in
      (w.result ≡ halted (exited (pos 0)))
      × (w.lines
          ≡ out "Input data: " []
            ∷ out "Written data: %s\n" (str (line 1023 (c ∷ input)) ∷ [])
            ∷ [])
      × (r.result ≡ halted (exited (pos 0)))
      × (r.lines ≡ out "data: %s" (str (line 1023 (c ∷ input)) ∷ []) ∷ [])
      × (r.state.object ≡ none)
posix_read-posix_write c input object h =
    let (e, s, l) = posix_write-run c input object h in
    let (e', l', o) =
      posix_read-run (stored (c ∷ input) (posix_old object)) (c ∷ input) (line 1023 (c ∷ input))
        (c_string-typed (c ∷ input) (posix_old object) h) in
    rw s (e, l, e', l', o)

sysv_write-run :
    (c : ℕ) (input : List ℕ) (object : Option (List ℕ))
    → IsText (c ∷ input)
    → IsLong object
    → let m : Memory = record {
      object = object;
      input = c ∷ input;
      refuse = false;
      fault = false;
    } in
      let w = run shm sysv_write m in
      (w.result ≡ halted (exited (pos 0)))
      × (w.state ≡ record m { object = some (stored (c ∷ input) (sysv_old object)) })
      × (w.lines
          ≡ out "input data: " []
            ∷ out "Written data: %s\n" (str (line 1023 (c ∷ input)) ∷ [])
            ∷ [])
unfolding sysv_write shm
sysv_write-run c input none h k =
    rw (fits (c ∷ input) (zeros 1024) (omega (arith, length-replicate {A = ℕ} 1024 0)))
      (rw (c_string-typed (c ∷ input) (zeros 1024) h) (refl, refl, refl))
sysv_write-run c input (some old) h k =
    let e : leb 1024 (length old) ≡ true = ground arith in
    rw e (rw (fits (c ∷ input) old k) (rw (c_string-typed (c ∷ input) old h) (refl, refl, refl)))

sysv_read-run :
    (bytes input text : List ℕ)
    → c_string bytes ≡ some text
    → 1024 ≤ length bytes
    → let r =
        run shm sysv_read
          (record { object = some bytes; input = input; refuse = false; fault = false }) in
      (r.result ≡ halted (exited (pos 0)))
      × (r.lines ≡ out "read data: %s\n" (str text ∷ []) ∷ [])
      × (r.state.object ≡ none)
unfolding sysv_read shm
sysv_read-run bytes input text h k =
    let e : leb 1024 (length bytes) ≡ true = ground arith in rw e (rw h (refl, refl, refl))

length-sysv_old : (object : Option (List ℕ)) → IsLong object → 1024 ≤ length (sysv_old object)
length-sysv_old none k = omega (arith, length-replicate {A = ℕ} 1024 0)
length-sysv_old (some old) k = k

length-stored : (input old : List ℕ) → 1024 ≤ length old → 1024 ≤ length (stored input old)
length-stored input old k =
    let t = line 1023 input ++ (0 ∷ []) in
    omega (arith, k, length-append t (drop (length t) old), length-drop (length t) old)

-- The line typed at the System V writer, without NULs, cut to 1023 characters, is echoed there and
-- printed by the reader, after which the segment is gone, whether there was none before or one of
-- 1024 bytes or more, whatever that held.
pub sysv_read-sysv_write :
    (c : ℕ) (input : List ℕ) (object : Option (List ℕ))
    → IsText (c ∷ input)
    → IsLong object
    → let m : Memory = record {
      object = object;
      input = c ∷ input;
      refuse = false;
      fault = false;
    } in
      let w = run shm sysv_write m in
      let r = run shm sysv_read w.state in
      (w.result ≡ halted (exited (pos 0)))
      × (w.lines
          ≡ out "input data: " []
            ∷ out "Written data: %s\n" (str (line 1023 (c ∷ input)) ∷ [])
            ∷ [])
      × (r.result ≡ halted (exited (pos 0)))
      × (r.lines ≡ out "read data: %s\n" (str (line 1023 (c ∷ input)) ∷ []) ∷ [])
      × (r.state.object ≡ none)
sysv_read-sysv_write c input object h k =
    let (e, s, l) = sysv_write-run c input object h k in
    let old = sysv_old object in
    let (e', l', o) =
      sysv_read-run (stored (c ∷ input) old) (c ∷ input) (line 1023 (c ∷ input))
        (c_string-typed (c ∷ input) old h)
        (length-stored (c ∷ input) old (length-sysv_old object k)) in
    rw s (e, l, e', l', o)
