-- ===== src/Files/Mmap/Laws.antt =====
-- mmap_example.c: what is printed.
use linux_system_programming.Prelude.{
  ℕ, zero, suc, ◌+◌, pos, is_minus_one, List, [], ◌∷◌, ◌≡◌, arith, length, map, take, drop, ◌≤◌,
  refl, drop-eq-cons, append-nil, true, false, ltb,
}
use linux_system_programming.Sys.{num, Line, out, run->>=, Kernel, run, exited, done, halted}
use linux_system_programming.Files.Mmap.{
  Call, Reply, int_max, open_file, fstat, mmap, close, munmap, s_isreg, put_chars, main,
}

-- `putchar (c)`
abbrev pub put_char : ℕ → Line
put_char c = out "%c" (num (pos c) ∷ [])

module _ {S : Type 0} (h : Kernel Call Reply S) where
  -- The loop prints the bytes from `i` on if they are there.
  run-put_chars :
      (n i : ℕ) (p : List ℕ) (s : S)
      → i + n ≤ length p
      → i + n ≤ int_max
      → run h (put_chars n i p) s ≡ record {
        result = done tt;
        state = s;
        calls = [];
        lines = map put_char (take n (drop i p));
      }
  unfolding put_chars
  run-put_chars zero i p s b m = refl
  run-put_chars (suc n) i p s b m =
      let (c, e, d) = drop-eq-cons p i (omega arith) in
      let l : ltb i int_max ≡ true = ground arith in
      rw (e, put_chars, d) (rw l (rw (run-put_chars n (i + 1) p s (omega arith) (omega arith))))

  run-put_chars_all :
      (n : ℕ) (p : List ℕ) (s : S)
      → n ≤ length p
      → n ≤ int_max
      → run h (put_chars n 0 p) s
        ≡ record { result = done tt; state = s; calls = []; lines = map put_char (take n p) }
  run-put_chars_all n p s b m = run-put_chars n 0 p s (omega arith) (omega arith)

  -- If every call succeeds, the file is a regular one of at most INT_MAX bytes and the mapping has
  -- its st_size bytes, then the program prints exactly these bytes, in order, with the five calls
  -- as listed, unmaps the address that mmap gave and exits with 0.
  pub main-copies :
      (name path : List ℕ) (rest : List (List ℕ)) (s : S)
      → let (fd, s1) = h (open_file path) s in
        let (sb, s2) = h (fstat fd.ret) s1 in
        let (p, s3) = h (mmap sb.st_size fd.ret) s2 in
        let (c, s4) = h (close fd.ret) s3 in
        let (u, s5) = h (munmap p.ret sb.st_size) s4 in
        is_minus_one fd.ret ≡ false
        → is_minus_one sb.ret ≡ false
        → s_isreg sb.st_mode ≡ true
        → is_minus_one p.ret ≡ false
        → sb.st_size ≤ length p.memory
        → sb.st_size ≤ int_max
        → is_minus_one c.ret ≡ false
        → is_minus_one u.ret ≡ false
        → run h (main (name ∷ path ∷ rest)) s ≡ record {
          result = halted (exited (pos 0));
          state = s5;
          calls =
              open_file path
              ∷ fstat fd.ret
              ∷ mmap sb.st_size fd.ret
              ∷ close fd.ret
              ∷ munmap p.ret sb.st_size
              ∷ [];
          lines = map put_char (take sb.st_size p.memory);
        }
  unfolding main
  main-copies name path rest s a b c d e m f g =
      rw (a, b, c, d, f) (rw (run->>= h) (rw (run-put_chars_all _ _ _ e m) (rw g (rw append-nil))))
