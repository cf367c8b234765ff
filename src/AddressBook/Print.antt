-- ===== src/AddressBook/Print.antt =====
-- malloc_example.c: the whole program on input that fits.
use linux_system_programming.Prelude.{
  ℕ, zero, suc, ◌+◌, ◌-◌, ◌≤◌, ◌<◌, ℤ, pos, is_zero, is_nonpositive, pos_part, false, ◌||◌, List,
  [], ◌∷◌, ◌++◌, some, ◌==◌, ltb, length, get_elem?, get_or, set, ◌≡◌, ◌⊎◌, refl, arith, negsuc,
  ◌∙◌, get_elem?-append, append_assoc, length-append, Bool-cases, inl, inr, length-set,
}
use linux_system_programming.Sys.{Kernel, Result, done, halted, exited, run, run->>=, and_then}
use linux_system_programming.Libc.{overlay}
use linux_system_programming.AddressBook.{
  Reply, scanned_int, Call, scan_int, scan_text, calloc, realloc, Info, Book, blank, input_one,
  print_one, print_person_information, same_info, int_max, change_one, change_step, main, build,
}
use linux_system_programming.AddressBook.Build.{
  IsEntry, Numbered, Fits, fits_test, run-input_one, run-build,
}

module _ {S : Type 0} (h : Kernel Call Reply S) where
  -- An element with terminated texts is printed without any call.
  run-print_one :
      (k : ℕ) (info : Info) (s : S)
      → IsEntry k info
      → ((run h (print_one info) s).result ≡ done tt) × ((run h (print_one info) s).state ≡ s)
  unfolding print_one
  run-print_one k info s e =
      let (_, a) = e.name in
      let (_, b) = e.phone in
      let (_, c) = e.mobile in let (_, d) = e.address in rw a (rw b (rw c (rw d (refl, refl))))

  run-print :
      (k : ℕ) (before after : Book) (s : S)
      → Numbered k after
      → ((run h
            (print_person_information (length after) (length before) (before ++ after))
            s).result
          ≡ done tt)
        × ((run h
              (print_person_information (length after) (length before) (before ++ after))
              s).state
            ≡ s)
  unfolding print_person_information
  run-print k before [] s f = (refl, refl)
  run-print k before (x ∷ xs) s f =
      let (r, q) = run-print_one k x s f.0 in
      let ih = run-print (k + 1) (before ++ (x ∷ [])) xs s f.1 in
      let e : length (before ++ (x ∷ [])) ≡ length before + 1 =
        omega (arith, length-append before (x ∷ [])) in
      let ih' = rw (e, append_assoc before (x ∷ []) xs) at ih in
      rw (get_elem?-append before xs x, print_person_information)
        (rw (run->>= h) (rw (r, and_then) (rw q ih')))

  run-print_all :
      (n : ℕ) (addr : Book) (s : S)
      → length addr ≡ n
      → Numbered 1 addr
      → ((run h (print_person_information n 0 addr) s).result ≡ done tt)
        × ((run h (print_person_information n 0 addr) s).state ≡ s)
  run-print_all n addr s l f = rw (← l) (run-print 1 [] addr s f)

get_elem?-Numbered : (k i : ℕ) (xs : Book) → i < length xs → (x : Info) × (get_elem? xs i ≡ some x)
get_elem?-Numbered k i [] h = elim h [ ]
get_elem?-Numbered k zero (x ∷ xs) h = (x, refl)
get_elem?-Numbered k (suc i) (x ∷ xs) h = get_elem?-Numbered k i xs (omega arith)

-- Writing person number `k + i` at place `i` keeps the numbering.
Numbered-set :
    (k i : ℕ) (xs : Book) (y : Info) → Numbered k xs → IsEntry (k + i) y → Numbered k (set xs i y)
Numbered-set k i [] y f e = tt
Numbered-set k zero (x ∷ xs) y f e = let z : k + 0 ≡ k = omega arith in (rw z at e, f.1)
Numbered-set k (suc i) (x ∷ xs) y f e =
    let z : k + suc i ≡ k + 1 + i = omega arith in
    (f.0, Numbered-set (k + 1) i xs y f.1 (rw z at e))

positive : (c : ℤ) → is_nonpositive c ≡ false → 0 < pos_part c
positive (pos zero) h = cc
positive (pos (suc n)) h = omega arith
positive (negsuc n) h = cc

in_range :
    (n : ℕ) (c : ℤ)
    → is_nonpositive c || ltb n (pos_part c) ≡ false
    → (0 < pos_part c) × (pos_part c ≤ n)
in_range n c h = (positive c (ground arith), ground arith)

module _ {S : Type 0} (h : Kernel Call Reply S) (fits : Fits h) (garbage : Info) (stack : List ℕ)
    (nperson0 addnum0 cidx0 : ℤ) where
  abbrev Ends : Result (Unit {0}) → Type 0
  Ends r = (r ≡ done tt) ⊎ (r ≡ halted (exited (pos 0)))

  -- STEP 3 ends in order, whatever index is given.
  run-change_one :
      (n : ℕ) (addr : Book) (s : S)
      → length addr ≡ n
      → Numbered 1 addr
      → Ends (run h (change_one garbage stack nperson0 addnum0 cidx0 n addr) s).result
  unfolding change_one
  run-change_one n addr s l f =
      let c = scanned_int cidx0 (h scan_int s).0 in
      let s1 = (h scan_int s).1 in
      elim (Bool-cases (is_nonpositive c || ltb n (pos_part c))) [
        | inl outside ↦ inr (rw outside)
        | inr within ↦
            let (lo, hi) = in_range n c within in
            let (new, r, e) = run-input_one h fits (pos_part c) blank s1 in
            let t = (run h (input_one (pos_part c) blank) s1).state in
            let (old, g) = get_elem?-Numbered 1 (pos_part c - 1) addr (omega arith) in
            let z : pos_part c ≡ 1 + (pos_part c - 1) = omega arith in
            let e' : IsEntry (1 + (pos_part c - 1)) new = rw (← z) e in
            let f' = Numbered-set 1 (pos_part c - 1) addr new f e' in
            let p =
              run-print_all h n (set addr (pos_part c - 1) new) t
                (length-set addr (pos_part c - 1) new ∙ l) f' in
            inl (
              rw within (
                rw (run->>= h) (
                  rw (r, and_then)
                    (rw g (elim (Bool-cases (same_info old new)) [
                      | inl same ↦ rw same
                      | inr differ ↦ rw differ p.0
                    ])))))
      ]

  run-change_step :
      (n : ℕ) (addr : Book) (s : S)
      → length addr ≡ n
      → Numbered 1 addr
      → Ends (run h (change_step garbage stack nperson0 addnum0 cidx0 n addr) s).result
  unfolding change_step
  run-change_step n addr s l f =
      let yn = overlay ((h (scan_text 2) s).0.text ++ (0 ∷ [])) stack in
      rw (fits_test h fits 2 s stack (omega arith))
        (elim (Bool-cases (get_or yn 0 0 == b'y' || get_or yn 0 0 == b'Y')) [
          | inl change ↦ rw change (run-change_one n addr (h (scan_text 2) s).1 l f)
          | inr keep ↦ inl (rw keep)
        ])

  -- With every word read and fitting, memory to be had, and a first number of persons that is positive
  -- and makes with every other number an int, the whole program is free of undefined behaviour and
  -- exits with 0, whatever the other answers are. A number that is not read is what its variable held.
  pub main-exits :
      (n : ℕ) (s : S)
      → ((k : ℕ) (t : S) → is_zero (h (calloc k) t).0.ret ≡ false)
      → ((k : ℕ) (t : S) → is_zero (h (realloc k) t).0.ret ≡ false)
      → ((t : S) → suc n + pos_part (scanned_int addnum0 (h scan_int t).0) ≤ int_max)
      → scanned_int nperson0 (h scan_int s).0 ≡ pos (suc n)
      → (run h (main garbage stack nperson0 addnum0 cidx0) s).result ≡ halted (exited (pos 0))
  unfolding main
  main-exits n s found memory small first =
      let (b, r, le, l, f) =
        run-build h fits garbage stack nperson0 addnum0 cidx0 n s found memory small first in
      let t = (run h (build garbage stack nperson0 addnum0 cidx0) s).state in
      let (p, q) = run-print_all h b.0 b.1 t l f in
      rw (run->>= h) (
        rw (r, and_then)
          (rw (run->>= h) (
            rw (p, and_then)
              (rw (q, run->>= h)
                (elim (run-change_step b.0 b.1 t l f) [
                  | inl c ↦ rw (c, and_then)
                  | inr c ↦ rw (c, and_then)
                ])))))
