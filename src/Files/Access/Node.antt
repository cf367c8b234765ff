-- ===== src/Files/Access/Node.antt =====
-- A kernel for the permission programs, run by the file's owner: the mode of the file, if there is
-- one.
use linux_system_programming.Prelude.{
  ℕ, ◌/◌, ◌%◌, ℤ, pos, minus_one, Bool, not, ◌&&◌, ◌||◌, [], Option, none, some, ◌==◌,
  if◌then◌else◌,
}
use linux_system_programming.Sys.{Reply, Kernel}
use linux_system_programming.Files.Access.{Call, access, chmod, creat}

abbrev value : ℤ → Reply
value n = record { ret = n; errno = 0; text = [] }

-- The bit asked for is among the owner's.
unfoldable pub allows : ℕ → ℕ → Bool
allows mode asked =
    (not (asked / 4 % 2 == 1) || mode / 256 % 2 == 1)
    && (not (asked / 2 % 2 == 1) || mode / 128 % 2 == 1)

abbrev accessed : ℕ → Option ℕ → Reply
accessed asked none = value minus_one
accessed asked (some mode) = if allows mode asked then value (pos 0) else value minus_one

abbrev changed : ℕ → Option ℕ → Reply × Option ℕ
changed new none = (value minus_one, none)
changed new (some mode) = (value (pos 0), some new)

-- A file that exists keeps its mode when it is created again.
abbrev created : ℕ → Option ℕ → Reply × Option ℕ
created new none = (value (pos 3), some new)
created new (some mode) = (value (pos 3), some mode)

unfoldable pub node : Kernel Call Reply (Option ℕ)
node (access asked) file = (accessed asked file, file)
node (chmod mode) file = changed mode file
node (creat mode) file = created mode file
