-- ===== src/Process/Pipe/Laws.antt =====
-- pipe_example.c: what the parent and the child do under every kernel.
use linux_system_programming.Prelude.{
  ℕ, pos, is_minus_one, is_negative, is_zero, true, false, List, [], ◌∷◌, ◌++◌, some, zeros, ◌≡◌,
  refl,
}
use linux_system_programming.Sys.{str, out, halted, exited, Kernel, run}
use linux_system_programming.Libc.{c_string, overlay, codes}
use linux_system_programming.Process.Pipe.{
  Call, Reply, pipe, fork, close, write, read, wait, parent, child, main,
}

module _ {S : Type 0} (h : Kernel Call Reply S) (s : S) where
  -- Under every kernel that gives two pipes and a child, and whose last read brings a text: the
  -- parent uses the right ends, closes each of the four descriptors once, writes its question before
  -- it waits, reads the answer behind the wait, prints it and returns 0.
  pub main-parent :
      (text : List ℕ)
      → let (fd1, s1) = h pipe s in
        let (fd2, s2) = h pipe s1 in
        let (p, s3) = h fork s2 in
        let question = codes "Did you understand?" ++ (0 ∷ []) in
        let (_, s4) = h (close fd1.fd0) s3 in
        let (_, s5) = h (write fd1.fd1 question) s4 in
        let (_, s6) = h (close fd1.fd1) s5 in
        let (_, s7) = h wait s6 in
        let (_, s8) = h (close fd2.fd1) s7 in
        is_minus_one fd1.ret ≡ false
        → is_minus_one fd2.ret ≡ false
        → is_negative p.ret ≡ false
        → is_zero p.ret ≡ false
        → c_string (overlay (h (read fd2.fd0 128) s8).0.text (zeros 128)) ≡ some text
        → let r = run h main s in
          (r.result ≡ halted (exited (pos 0)))
          × (r.calls
              ≡ pipe
                ∷ pipe
                ∷ fork
                ∷ close fd1.fd0
                ∷ write fd1.fd1 question
                ∷ close fd1.fd1
                ∷ wait
                ∷ close fd2.fd1
                ∷ read fd2.fd0 128
                ∷ close fd2.fd0
                ∷ [])
          × (r.lines ≡ out "[Parent] read from Child: %s\n" (str text ∷ []) ∷ [])
  unfolding main parent
  main-parent text a b n z e = rw (a) (rw (b) (rw (n, z) (rw e (refl, refl, refl))))

  -- Under every kernel that gives two pipes and makes this process the child, and whose read brings
  -- a text: the child reads and prints before it writes, uses the right ends, closes each of the four
  -- descriptors once and exits with 0.
  pub main-child :
      (text : List ℕ)
      → let (fd1, s1) = h pipe s in
        let (fd2, s2) = h pipe s1 in
        let (p, s3) = h fork s2 in
        let (_, s4) = h (close fd1.fd1) s3 in
        is_minus_one fd1.ret ≡ false
        → is_minus_one fd2.ret ≡ false
        → is_negative p.ret ≡ false
        → is_zero p.ret ≡ true
        → c_string (overlay (h (read fd1.fd0 128) s4).0.text (zeros 128)) ≡ some text
        → let r = run h main s in
          (r.result ≡ halted (exited (pos 0)))
          × (r.calls
              ≡ pipe
                ∷ pipe
                ∷ fork
                ∷ close fd1.fd1
                ∷ read fd1.fd0 128
                ∷ close fd1.fd0
                ∷ close fd2.fd0
                ∷ write fd2.fd1 (codes "OK!" ++ (0 ∷ []))
                ∷ close fd2.fd1
                ∷ [])
          × (r.lines ≡ out "[Child] read from Parent: %s\n" (str text ∷ []) ∷ [])
  unfolding main child
  main-child text a b n z e = rw (a) (rw (b) (rw (n, z) (rw e (refl, refl, refl))))
