-- ===== src/AddressBook/Build.antt =====
-- malloc_example.c, STEP 1 and STEP 2: what the input leaves in the array.
use linux_system_programming.Prelude.{
  ℕ, zero, suc, ◌+◌, ◌-◌, ℤ, take, take-length, ◌≤◌, ◌<◌, pos, is_zero, is_nonpositive, pos_part,
  true, false, ◌||◌, List, [], ◌∷◌, ◌++◌, some, ◌==◌, ltb, length, get_elem?, get_or, set,
  replicate, ◌≡◌, refl, arith, append_assoc, length-append, get_elem?-append, set-append,
  length-replicate, append-nil, Bool-cases, inl, inr,
}
use linux_system_programming.Sys.{Kernel, done, run, run->>=, and_then}
use linux_system_programming.Libc.{c_string, overlay, c_string-some}
use linux_system_programming.AddressBook.{
  Reply, scanned_int, scanned_text, Call, scan_int, scan_text, calloc, realloc, Info, Book, blank,
  input_one, input_person_information, int_max, add_step, build_for, build,
}

-- A char array with a NUL in it.
abbrev pub HasText : List ℕ → Type 0
HasText a = (t : List ℕ) × (c_string a ≡ some t)

-- An element that holds person number `k`.
pub record IsEntry (k : ℕ) (info : Info) : Type 0 where
  pub number : info.index ≡ k
  pub name : HasText info.name
  pub phone : HasText info.phone_number
  pub mobile : HasText info.mobile_number
  pub address : HasText info.address

-- The elements hold the persons from number `k` on, in order.
abbrev pub Numbered : ℕ → Book → Type 0
Numbered k [] = Unit
Numbered k (x ∷ xs) = IsEntry k x × Numbered (k + 1) xs

HasText-field : (t old : List ℕ) → HasText (overlay (t ++ (0 ∷ [])) old)
HasText-field t old = rw append_assoc (c_string-some t _)

Numbered-append :
    (k j : ℕ) (xs ys : Book)
    → k + length xs ≡ j
    → Numbered k xs
    → Numbered j ys
    → Numbered k (xs ++ ys)
Numbered-append k j [] ys e hx hy = let e' : k ≡ j = omega arith in rw e' hy
Numbered-append k j (x ∷ xs) ys e hx hy =
    (hx.0, Numbered-append (k + 1) j xs ys (omega arith) hx.1 hy)

-- Every word that the user is asked for is read and fits its array.
abbrev pub Fits : {S : Type 0} → Kernel Call Reply S → Type 0
Fits {S} h =
    (n : ℕ) (s : S)
    → 1 < n
    → ((h (scan_text n) s).0.ret ≡ pos 1) × (length (h (scan_text n) s).0.text < n)

module _ {S : Type 0} (h : Kernel Call Reply S) (fits : Fits h) where
  pub fits_test :
      (n : ℕ) (s : S) (old : List ℕ)
      → 1 < n
      → scanned_text n old (h (scan_text n) s).0
        ≡ some (overlay ((h (scan_text n) s).0.text ++ (0 ∷ [])) old)
  unfolding scanned_text
  fits_test n s old w =
      let (e, f) = fits n s w in
      let l : ltb (length (h (scan_text n) s).0.text) n ≡ true = ground arith in rw e (rw l refl)

  -- One element is filled in.
  pub run-input_one :
      (k : ℕ) (old : Info) (s : S)
      → (new : Info) × ((run h (input_one k old) s).result ≡ done new) × IsEntry k new
  unfolding input_one
  run-input_one k old s =
      let s1 = (h (scan_text 32) s).1 in
      let s2 = (h (scan_text 32) s1).1 in
      let s3 = (h (scan_text 32) s2).1 in
      let new : Info = record {
        index = k;
        name = overlay ((h (scan_text 32) s).0.text ++ (0 ∷ [])) old.name;
        phone_number = overlay ((h (scan_text 32) s1).0.text ++ (0 ∷ [])) old.phone_number;
        mobile_number = overlay ((h (scan_text 32) s2).0.text ++ (0 ∷ [])) old.mobile_number;
        address = overlay ((h (scan_text 128) s3).0.text ++ (0 ∷ [])) old.address;
      } in
      (
        new,
        rw (fits_test 32 s old.name (omega arith)) (
            rw (fits_test 32 s1 old.phone_number (omega arith)) (
              rw (fits_test 32 s2 old.mobile_number (omega arith))
                (rw (fits_test 128 s3 old.address (omega arith))))),
        record {
          number = refl;
          name = HasText-field _ _;
          phone = HasText-field _ _;
          mobile = HasText-field _ _;
          address = HasText-field _ _;
        },
      )

  -- The loop fills the `n` elements behind `before` and leaves the others.
  run-input :
      (n i memidx pidx : ℕ) (before middle after : Book) (s : S)
      → length before ≡ memidx + i
      → length middle ≡ n
      → (new : Book) × ((run h
            (input_person_information n i (before ++ (middle ++ after)) memidx pidx)
            s).result
          ≡ done (before ++ (new ++ after)))
        × (length new ≡ n)
        × Numbered (pidx + i) new
  unfolding input_person_information
  run-input zero i memidx pidx before [] after s b m = ([], refl, refl, tt)
  run-input zero i memidx pidx before (x ∷ xs) after s b m = absurd (omega arith)
  run-input (suc n) i memidx pidx before [] after s b m = absurd (omega arith)
  run-input (suc n) i memidx pidx before (x ∷ xs) after s b m =
      let (y, r, e) = run-input_one (pidx + i) x s in
      let t = (run h (input_one (pidx + i) x) s).state in
      let (ys, q, l, f) =
        run-input n (i + 1) memidx pidx (before ++ (y ∷ [])) xs after t
          (omega (arith, length-append before (y ∷ []))) (omega arith) in
      let g : get_elem? (before ++ (x ∷ (xs ++ after))) (memidx + i) ≡ some x =
        rw (← b) (get_elem?-append before (xs ++ after) x) in
      let w : set (before ++ (x ∷ (xs ++ after))) (memidx + i) y ≡ before ++ (y ∷ (xs ++ after)) =
        rw (← b) (set-append before (xs ++ after) x y) in
      let q' =
        rw (append_assoc before (y ∷ []) (xs ++ after), append_assoc before (y ∷ []) (ys ++ after))
          at q in
      (
        y ∷ ys,
        rw (g, input_person_information) (rw (run->>= h) (rw (r, and_then) (rw w q'))),
        omega arith,
        (e, let a : pidx + (i + 1) ≡ pidx + i + 1 = omega arith in rw a at f),
      )

  -- A whole array, or the part of it behind `before`.
  run-input_all :
      (n memidx pidx : ℕ) (before middle : Book) (s : S)
      → length before ≡ memidx
      → length middle ≡ n
      → (new : Book) × ((run h
            (input_person_information n 0 (before ++ middle) memidx pidx)
            s).result
          ≡ done (before ++ new))
        × (length new ≡ n)
        × Numbered pidx new
  run-input_all n memidx pidx before middle s b m =
      let (new, r, l, f) = run-input n 0 memidx pidx before middle [] s (omega arith) m in
      let r' = rw (append-nil middle, append-nil new) at r in
      let z : pidx + 0 ≡ pidx = omega arith in (new, r', l, rw z at f)

  module _ (garbage : Info) (stack : List ℕ) (nperson0 addnum0 cidx0 : ℤ) where
    -- What STEP 1 and STEP 2 hand over: an array of `nperson` elements that hold the persons 1, 2, …
    abbrev IsBuilt : ℕ → ℕ × Book → Type 0
    IsBuilt n (k, book) = (n ≤ k) × (length book ≡ k) × Numbered 1 book

    run-add_step :
        (n : ℕ) (addr : Book) (s : S)
        → ((k : ℕ) (t : S) → is_zero (h (realloc k) t).0.ret ≡ false)
        → ((t : S) → n + pos_part (scanned_int addnum0 (h scan_int t).0) ≤ int_max)
        → length addr ≡ n
        → Numbered 1 addr
        → (b : ℕ × Book) × ((run h (add_step garbage stack nperson0 addnum0 cidx0 n addr) s).result
            ≡ done b)
          × IsBuilt n b
    unfolding add_step
    run-add_step n addr s memory small l f =
        let s1 = (h (scan_text 2) s).1 in
        let yn = overlay ((h (scan_text 2) s).0.text ++ (0 ∷ [])) stack in
        let a = scanned_int addnum0 (h scan_int s1).0 in
        let s2 = (h scan_int s1).1 in
        let s3 = (h (realloc (n + pos_part a)) s2).1 in
        let (new, r, k, g) =
          run-input_all (pos_part a) n (n + 1) addr (replicate (pos_part a) garbage) s3 l
            (length-replicate (pos_part a) garbage) in
        let w : take (n + pos_part a) addr ≡ addr =
          take-length (n + pos_part a) addr (omega (arith, l)) in
        let w' : n + pos_part a - length addr ≡ pos_part a = omega (arith, l) in
        let o : ltb int_max (n + pos_part a) ≡ false = let b = small s1 in ground arith in
        rw (fits_test 2 s stack (omega arith))
          (elim (Bool-cases (get_or yn 0 0 == b'y' || get_or yn 1 0 == b'Y')) [
            | inr no_more ↦ ((n, addr), rw no_more, (omega arith, l, f))
            | inl more ↦ elim (Bool-cases (is_nonpositive a)) [
              | inl none_more ↦ ((n, addr), rw more (rw none_more), (omega arith, l, f))
              | inr some_more ↦ (
                (n + pos_part a, addr ++ new),
                rw more (
                    rw some_more (
                      rw o (
                        rw (memory (n + pos_part a) s2)
                          (rw (w, w') (rw (run->>= h) (rw (r, and_then))))))),
                (
                  omega arith,
                  omega (arith, length-append addr new),
                  Numbered-append 1 (n + 1) addr new (omega arith) f g,
                ),
              )
            ]
          ])

    run-build_for :
        (n : ℕ) (s1 : S)
        → ((k : ℕ) (t : S) → is_zero (h (calloc k) t).0.ret ≡ false)
        → ((k : ℕ) (t : S) → is_zero (h (realloc k) t).0.ret ≡ false)
        → ((t : S) → suc n + pos_part (scanned_int addnum0 (h scan_int t).0) ≤ int_max)
        → (b : ℕ × Book) × ((run h
              (build_for garbage stack nperson0 addnum0 cidx0 (pos (suc n)))
              s1).result
            ≡ done b)
          × IsBuilt (suc n) b
    unfolding build_for
    run-build_for n s1 found memory small =
        let s2 = (h (calloc (suc n)) s1).1 in
        let (new, r, l, f) =
          run-input_all (suc n) 0 1 [] (replicate (suc n) blank) s2 refl
            (length-replicate (suc n) blank) in
        let t =
          (run h (input_person_information (suc n) 0 (replicate (suc n) blank) 0 1) s2).state in
        let (b, q, g) = run-add_step (suc n) new t memory small l f in
        (b, rw (found (suc n) s1) (rw (run->>= h) (rw (r, and_then) q)), g)

    -- With every word read and fitting, memory to be had, and a first number of persons that is
    -- positive and makes with every other number an int, STEP 1 and STEP 2 hand over an array of
    -- `nperson` elements, at least that many, which hold the persons 1, 2, … in order, each with
    -- terminated texts. A number that is not read is what its variable held.
    pub run-build :
        (n : ℕ) (s : S)
        → ((k : ℕ) (t : S) → is_zero (h (calloc k) t).0.ret ≡ false)
        → ((k : ℕ) (t : S) → is_zero (h (realloc k) t).0.ret ≡ false)
        → ((t : S) → suc n + pos_part (scanned_int addnum0 (h scan_int t).0) ≤ int_max)
        → scanned_int nperson0 (h scan_int s).0 ≡ pos (suc n)
        → (b : ℕ × Book) × ((run h (build garbage stack nperson0 addnum0 cidx0) s).result ≡ done b)
          × (suc n ≤ b.0)
          × (length b.1 ≡ b.0)
          × Numbered 1 b.1
    unfolding build
    run-build n s found memory small first =
        let (b, q, (le, k, g)) = run-build_for n (h scan_int s).1 found memory small in
        (b, rw (first, build) q, le, k, g)

-- At the question "anyone else?" the answer "Y" is taken for a no: nothing is asked and the array
-- stays as it is, since the test looks for the 'Y' in `yn[1]`.
pub run-add_step_capital :
    {S : Type 0} (h : Kernel Call Reply S) (garbage : Info) (stack : List ℕ)
    (nperson0 addnum0 cidx0 : ℤ) (n : ℕ) (addr : Book) (s : S)
    → (h (scan_text 2) s).0.ret ≡ pos 1
    → (h (scan_text 2) s).0.text ≡ b'Y' ∷ []
    → let r = run h (add_step garbage stack nperson0 addnum0 cidx0 n addr) s in
      (r.result ≡ done (n, addr)) × (r.calls ≡ scan_text 2 ∷ [])
unfolding add_step scanned_text
run-add_step_capital h garbage stack nperson0 addnum0 cidx0 n addr s one answer =
    rw one (rw answer (refl, refl))
