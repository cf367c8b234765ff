-- ===== src/Ipc/PosixMq/Laws.antt =====
-- The POSIX queue programs: refused command lines, and the message that arrives.
use linux_system_programming.Prelude.{ℕ, pos, Bool, false, List, [], ◌∷◌, ◌==◌, ◌≡◌, refl}
use linux_system_programming.Sys.{halted, exited, Kernel, run}
use linux_system_programming.Libc.{codes}
use linux_system_programming.Ipc.PosixMq.{Call, Reply, receiver, sender}

-- One argument that starts with a slash.
abbrev pub well_formed : List (List ℕ) → Bool
well_formed (name ∷ (c ∷ _) ∷ []) = c == b'/'
well_formed _ = false

module _ {S : Type 0} (h : Kernel Call Reply S) where
  -- Under every kernel, a command line that is not one name with a slash in front ends either
  -- program with EXIT_FAILURE before any call.
  pub receiver-sender_refused :
      (argv : List (List ℕ)) (s : S)
      → well_formed argv ≡ false
      → ((run h (receiver argv) s).result ≡ halted (exited (pos 1)))
        × ((run h (receiver argv) s).calls ≡ [])
        × ((run h (sender argv) s).result ≡ halted (exited (pos 1)))
        × ((run h (sender argv) s).calls ≡ [])
  unfolding receiver sender
  receiver-sender_refused [] s e = (refl, refl, refl, refl)
  receiver-sender_refused (n ∷ []) s e = (refl, refl, refl, refl)
  receiver-sender_refused (n ∷ [] ∷ []) s e = (refl, refl, refl, refl)
  receiver-sender_refused (n ∷ (c ∷ q) ∷ []) s e = rw e (refl, refl, refl, refl)
  receiver-sender_refused (n ∷ [] ∷ x ∷ r) s e = (refl, refl, refl, refl)
  receiver-sender_refused (n ∷ (c ∷ q) ∷ x ∷ r) s e = (refl, refl, refl, refl)

abbrev hello : List ℕ
hello = codes "Hello, World!"
