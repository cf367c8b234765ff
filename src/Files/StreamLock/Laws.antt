-- ===== src/Files/StreamLock/Laws.antt =====
-- flock_example.c: the calls that one thread makes, whatever the stream answers.
use linux_system_programming.Prelude.{
  ℕ, zero, suc, ◌<◌, is_zero, is_minus_one, true, false, [], ◌∷◌, ◌++◌, replicate, if◌then◌else◌,
  ◌≡◌, refl, arith, ap, Bool-cases, inl, inr,
}
use linux_system_programming.Sys.{Reply, Kernel, done, run, run->>=, and_then}
use linux_system_programming.Files.StreamLock.{
  Call, flockfile, fgets, fputs, sleep, funlockfile, show_file, hello, add_line, mod_file_thread,
}

module _ {S : Type 0} (h : Kernel Call Reply S) where
  -- From a state, `n` reads bring a line each, the next one brings none, and a last state is left.
  pub data Reads : ℕ → S → S → Type 0 where
    end : (s : S) → is_zero (h (fgets 1024) s).0.ret ≡ true → Reads zero s (h (fgets 1024) s).1
    line :
        {n : ℕ} {t : S} (s : S)
        → is_zero (h (fgets 1024) s).0.ret ≡ false
        → Reads n (h (fgets 1024) s).1 t
        → Reads (suc n) s t

  run-show_file :
      (fuel : ℕ) {n : ℕ} {s t : S}
      → n < fuel
      → Reads n s t
      → let r = run h (show_file fuel) s in
        (r.result ≡ done tt) × (r.state ≡ t) × (r.calls ≡ replicate (suc n) (fgets 1024))
  unfolding show_file
  run-show_file zero b (end s e) = elim b [ ]
  run-show_file zero b (line s e r) = elim b [ ]
  run-show_file (suc fuel) b (end s e) = rw e (refl, refl, refl)
  run-show_file (suc fuel) b (line s e r) =
      let (x, y, z) = run-show_file fuel (omega arith) r in rw e (x, y, ap (λ c. fgets 1024 ∷ c) z)

  -- Whatever the stream answers, where its lines come to an end and the rounds are more than the
  -- lines: a thread locks the stream before it reads it, reads to the end, and writes its line once. It
  -- gives the lock back if that write succeeds, after 3 seconds; if the write fails it ends, too, but
  -- with the lock still taken.
  pub mod_file_thread-Reads :
      (fuel n : ℕ) (s t : S)
      → n < fuel
      → Reads n (h flockfile s).1 t
      → let r = run h (mod_file_thread fuel) s in
        let failed = is_minus_one (h (fputs hello) t).0.ret in
        (r.result ≡ done tt)
        × (r.calls
            ≡ flockfile ∷ replicate (suc n) (fgets 1024)
              ++ (fputs hello ∷ (if failed then [] else sleep 3 ∷ funlockfile ∷ [])))
  unfolding mod_file_thread add_line
  mod_file_thread-Reads fuel n s t b r =
      let (x, y, z) = run-show_file fuel b r in
      rw (run->>= h) (
        rw (x, y, z, and_then)
          (elim (Bool-cases (is_minus_one (h (fputs hello) t).0.ret)) [
            | inl e ↦ rw e (refl, refl)
            | inr e ↦ rw e (refl, refl)
          ]))
