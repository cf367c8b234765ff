-- ===== src/Files/Directory/Laws.antt =====
-- directory_example.c: the answer is whether the file is among the entries.
use linux_system_programming.Prelude.{
  ℕ, zero, suc, ◌<◌, pos, minus_one, Bool, false, ◌||◌, List, [], ◌∷◌, ◌++◌, ◌==◌, if◌then◌else◌,
  length, ◌≡◌, refl, arith, Bool-cases, inl, inr,
}
use linux_system_programming.Libc.{same_text}
use linux_system_programming.Sys.{Line, out, err, str, done, halted, exited, run, run->>=, and_then}
use linux_system_programming.Files.Directory.{search_dir, main}
use linux_system_programming.Files.Directory.Listing.{Listing, listing}

-- The file is one of the entries.
abbrev pub among : List ℕ → List (List ℕ) → Bool
among file [] = false
among file (e ∷ es) = same_text e file || among file es

abbrev answer : List ℕ → Bool → List Line
answer file found = if found then out "found! file(%s) exist\n" (str file ∷ []) ∷ [] else []

after-0 : (n : ℕ) → (if n == 0 then 0 else n) ≡ n
after-0 n = ground arith

-- The loop ends with the answer, and leaves errno as its last call does.
search_dir-among :
    (fuel : ℕ) (file : List ℕ) (entries : List (List ℕ)) (n k : ℕ)
    → length entries < fuel
    → let start : Listing = record {
      entries = entries;
      end_errno = n;
      print_errno = k;
      errno = 0;
    } in
      let r = run listing (search_dir fuel file) start in
      (r.result ≡ done (among file entries))
      × (r.state.errno ≡ (if among file entries then k else n))
      × (r.lines ≡ answer file (among file entries))
unfolding search_dir listing
search_dir-among zero file entries n k h = elim h [ ]
search_dir-among (suc fuel) file [] n k h = (refl, after-0 n, refl)
search_dir-among (suc fuel) file (e ∷ es) n k h = elim (Bool-cases (same_text e file)) [
  | inl t ↦ rw t (refl, after-0 k, refl)
  | inr f ↦ rw f (search_dir-among fuel file es n k (omega arith))
]

-- What the user reads: whether the file was found, and whether errno is 0 behind the loop.
abbrev pub message : List ℕ → Bool → Bool → List Line
message file found fine =
    answer file found
    ++ (if fine
        then (if found then [] else out "file(%s) doesn't exist!\n" (str file ∷ []) ∷ [])
        else err "readdir error: " ∷ [])

-- With more rounds than entries the program ends, whatever errno was at first. If the file is among
-- the entries it says so; if not, and the listing was read to its end, it says that the file does not
-- exist; in both cases it returns 0. It reports a failed readdir and returns -1 if the reading failed
-- before the file was seen, and also where the file was found and the printf that says so left an
-- errno.
pub main-answers :
    (fuel : ℕ) (name path file : List ℕ) (rest entries : List (List ℕ)) (n k e : ℕ)
    → length entries < fuel
    → let last = if among file entries then k else n in
      let r =
        run listing
          (main fuel (name ∷ path ∷ file ∷ rest))
          (record { entries = entries; end_errno = n; print_errno = k; errno = e }) in
      (r.result ≡ halted (exited (if last == 0 then pos 0 else minus_one)))
      × (r.lines ≡ message file (among file entries) (last == 0))
unfolding main listing
main-answers fuel name path file rest entries n k e h =
    let start : Listing = record { entries = entries; end_errno = n; print_errno = k; errno = 0 } in
    let (a, x, l) = search_dir-among fuel file entries n k h in
    rw (run->>= listing _ (search_dir fuel file) start) (
      rw (a, and_then)
        (rw (x, l)
          (elim (Bool-cases (among file entries)) [
            | inl m ↦ elim (Bool-cases (k == 0)) [
              | inl z ↦ rw m (rw z (refl, refl))
              | inr z ↦ rw m (rw z (refl, refl))
            ]
            | inr m ↦ elim (Bool-cases (n == 0)) [
              | inl z ↦ rw m (rw z (refl, refl))
              | inr z ↦ rw m (rw z (refl, refl))
            ]
          ])))
