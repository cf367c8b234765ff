-- ===== src/Process/Clock/Store.antt =====
-- The C library for gmtime_localtime.c: gmtime and localtime give a pointer to one static struct. How
-- a moment is split into fields is a parameter, with no result where it does not fit.
use linux_system_programming.Prelude.{ℤ, pos, Option, none, some}
use linux_system_programming.Sys.{Kernel}
use linux_system_programming.Process.Clock.{
  Tm, Call, Reply, time, gmtime, localtime, deref, gmtime_r, localtime_r,
}

pub record Store : Type 0 where
  pub now : ℤ
  pub buffer : Tm

abbrev split : Store → Option Tm → Reply × Store
split s none = (record { ret = pos 0; tm = s.buffer }, s)
split s (some tm) = (record { ret = pos 1; tm = tm }, record s { buffer = tm })

abbrev split_r : Store → Option Tm → Reply × Store
split_r s none = (record { ret = pos 0; tm = s.buffer }, s)
split_r s (some tm) = (record { ret = pos 1; tm = tm }, s)

module _ (utc local : ℤ → Option Tm) where
  unfoldable pub library : Kernel Call Reply Store
  library time s = (record { ret = s.now; tm = s.buffer }, s)
  library (gmtime t) s = split s (utc t)
  library (localtime t) s = split s (local t)
  library (deref p) s = (record { ret = pos 0; tm = s.buffer }, s)
  library (gmtime_r t) s = split_r s (utc t)
  library (localtime_r t) s = split_r s (local t)
