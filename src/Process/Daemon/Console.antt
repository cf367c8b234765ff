-- ===== src/Process/Daemon/Console.antt =====
-- A kernel for daemon_example.c: the terminal, which daemon (0, 0) replaces by /dev/null.
use linux_system_programming.Prelude.{
  ℕ, ◌+◌, ℤ, pos, minus_one, Bool, false, List, [], ◌∷◌, ◌++◌, String, if◌then◌else◌,
}
use linux_system_programming.Sys.{Reply, Kernel}
use linux_system_programming.Process.Daemon.{Call, put, daemon, sleep}

pub record Console : Type 0 where
  pub attached : Bool
  pub shown : List String
  pub clock : ℕ
  pub refuse : Bool

abbrev value : ℤ → Reply
value n = record { ret = n; errno = 0; text = [] }

unfoldable pub console : Kernel Call Reply Console
console (put text) c =
    (value (pos 1), record c { shown = if c.attached then c.shown ++ (text ∷ []) else c.shown })
console daemon c =
    if c.refuse then (value minus_one, c) else (value (pos 0), record c { attached = false })
console (sleep n) c = (value (pos 0), record c { clock = c.clock + n })
