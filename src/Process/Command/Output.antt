-- ===== src/Process/Command/Output.antt =====
-- A kernel for popen_example.c: the lines that the command still has to print, and its status.
use linux_system_programming.Prelude.{ℕ, ℤ, pos, Bool, List, [], ◌∷◌, if◌then◌else◌}
use linux_system_programming.Sys.{Reply, Kernel}
use linux_system_programming.Process.Command.{Call, popen, fgets, pclose}

pub record Output : Type 0 where
  pub pending : List (List ℕ)
  pub status : ℤ
  pub refuse : Bool

abbrev value : ℤ → Reply
value n = record { ret = n; errno = 0; text = [] }

abbrev next_line : Output → List (List ℕ) → Reply × Output
next_line o [] = (value (pos 0), o)
next_line o (t ∷ ts) = (record { ret = pos 1; errno = 0; text = t }, record o { pending = ts })

unfoldable pub output : Kernel Call Reply Output
output popen o = (if o.refuse then value (pos 0) else value (pos 1), o)
output (fgets size) o = next_line o o.pending
output pclose o = (value o.status, o)
