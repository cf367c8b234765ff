-- ===== src/Files/Directory/Listing.antt =====
-- A kernel for directory_example.c: the entries that are left, the errno of their end, and errno.
use linux_system_programming.Prelude.{ℕ, ℤ, pos, List, [], ◌∷◌, ◌==◌, if◌then◌else◌}
use linux_system_programming.Sys.{Reply, Kernel}
use linux_system_programming.Files.Directory.{
  Call, opendir, set_errno, readdir, printed, get_errno, closedir,
}

-- `end_errno` is 0 where the entries end, and an error number where the reading of them fails;
-- `print_errno` is 0 or what a printf that succeeds leaves in errno. No call that succeeds sets errno
-- to 0.
pub record Listing : Type 0 where
  pub entries : List (List ℕ)
  pub end_errno : ℕ
  pub print_errno : ℕ
  pub errno : ℕ

abbrev value : ℤ → Reply
value n = record { ret = n; errno = 0; text = [] }

abbrev after : ℕ → ℕ → ℕ
after new old = if new == 0 then old else new

abbrev next : Listing → List (List ℕ) → Reply × Listing
next l [] = (value (pos 0), record l { errno = after l.end_errno l.errno })
next l (e ∷ es) = (record { ret = pos 1; errno = 0; text = e }, record l { entries = es })

unfoldable pub listing : Kernel Call Reply Listing
listing (opendir path) l = (value (pos 1), l)
listing (set_errno n) l = (value (pos 0), record l { errno = n })
listing readdir l = next l l.entries
listing printed l = (value (pos 0), record l { errno = after l.print_errno l.errno })
listing get_errno l = (record { ret = pos 0; errno = l.errno; text = [] }, l)
listing closedir l = (value (pos 0), l)
