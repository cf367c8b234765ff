-- ===== src/Process/Status/Laws.antt =====
-- parent_child_example.c: each way for a child to end is told as that.
use linux_system_programming.Prelude.{
  ℕ, ◌+◌, ◌*◌, ◌%◌, ◌≤◌, pos, is_zero, is_negative, Bool, true, false, List, [], ◌∷◌, if◌then◌else◌,
  ◌≡◌, refl, arith,
}
use linux_system_programming.Sys.{Line, num, out, halted, exited, Kernel, run}
use linux_system_programming.Process.Status.{
  Call, Reply, fork, wait, parent_child_main, wexitstatus, wtermsig, wstopsig, wifexited,
  wifsignaled, wifstopped, wifcontinued, wcoredump,
}

-- How a child ends, which is what wait tells of it, and the status word that the kernel makes of it.
pub data Fate : Type 0 where
  ended : (code : ℕ) → Fate
  killed : (signal : ℕ) (core : Bool) → Fate

abbrev pub status_word : Fate → ℕ
status_word (ended code) = code % 256 * 256
status_word (killed signal core) = if core then signal + 128 else signal

-- Signals are numbered from 1 to 64.
abbrev pub IsFate : Fate → Type 0
IsFate (ended code) = Unit {0}
IsFate (killed signal core) = (1 ≤ signal) × (signal ≤ 64)

-- The line that tells the user of it.
abbrev pub parent_told : Fate → List Line
parent_told (ended code) =
    out "parent: child ended, exit code: %d\n" (num (pos (code % 256)) ∷ []) ∷ []
parent_told (killed signal core) =
    out "parent: child killed, signal: %d\n" (num (pos signal) ∷ []) ∷ []

-- What the macros say of the word of each fate.
ended-classes :
    (code : ℕ)
    → let w = code % 256 * 256 in
      (wifexited w ≡ true)
      × (wifsignaled w ≡ false)
      × (wifstopped w ≡ false)
      × (wifcontinued w ≡ false)
      × (wexitstatus w ≡ code % 256)
unfolding wexitstatus wtermsig wstopsig wifexited wifsignaled wifstopped wifcontinued wcoredump
ended-classes code = (ground arith, ground arith, ground arith, ground arith, omega arith)

killed-classes :
    (signal : ℕ) (core : Bool)
    → IsFate (killed signal core)
    → let w = status_word (killed signal core) in
      (wifexited w ≡ false)
      × (wifsignaled w ≡ true)
      × (wifstopped w ≡ false)
      × (wifcontinued w ≡ false)
      × (wtermsig w ≡ signal)
      × (wcoredump w ≡ core)
unfolding wexitstatus wtermsig wstopsig wifexited wifsignaled wifstopped wifcontinued wcoredump
killed-classes signal true (a, b) =
    (ground arith, ground arith, ground arith, ground arith, omega arith, ground arith)
killed-classes signal false (a, b) =
    (ground arith, ground arith, ground arith, ground arith, omega arith, ground arith)

module _ {S : Type 0} (h : Kernel Call Reply S) where
  -- The parent of parent_child_example.c succeeds and tells the low eight bits of the code of a
  -- child that ended, and the signal of one that was killed, with a core file or without.
  pub parent_child_main-told :
      (fate : Fate) (s : S)
      → let (f, s1) = h fork s in
        let (w, s2) = h wait s1 in
        IsFate fate
        → is_zero f.ret ≡ false
        → is_negative f.ret ≡ false
        → w.status ≡ status_word fate
        → let r = run h parent_child_main s in
          (r.result ≡ halted (exited (pos 0)))
          × (r.calls ≡ fork ∷ wait ∷ [])
          × (r.lines ≡ out "parent: waiting for the child...\n" [] ∷ parent_told fate)
  unfolding parent_child_main
  parent_child_main-told (ended code) s i z n e =
      let (a, b, c, d, g) = ended-classes code in rw (z, n, e, a, g) (refl, refl, refl)
  parent_child_main-told (killed signal true) s i z n e =
      let (a, b, c, d, g, k) = killed-classes signal true i in
      rw (z, n, e, a, b, g) (refl, refl, refl)
  parent_child_main-told (killed signal false) s i z n e =
      let (a, b, c, d, g, k) = killed-classes signal false i in
      rw (z, n, e, a, b, g) (refl, refl, refl)
