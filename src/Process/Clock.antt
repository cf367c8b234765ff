-- ===== src/Process/Clock.antt =====
-- gmtime_localtime.c: one moment as UTC and as local time, through the static buffer and without it.
pub mod Store
pub mod Laws
mod Tests
use linux_system_programming.Prelude.{
  ℕ, ◌+◌, ℤ, pos, negsuc, ◌-ℤ◌, minus_one, is_zero, ◌||◌, List, [], ◌∷◌, if◌then◌else◌, String,
}
use linux_system_programming.Sys.{
  num, Prog, ret, halt, print, call, ◌>>=◌, ◌>>◌, sys, printf, perror, exit, when, err, out,
}

-- The fields of struct tm that the program reads.
pub record Tm : Type 0 where
  pub tm_year : ℤ
  pub tm_mon : ℕ
  pub tm_mday : ℕ
  pub tm_hour : ℕ
  pub tm_min : ℕ
  pub tm_sec : ℕ

-- `deref p` reads the struct at a pointer that gmtime or localtime gave.
pub data Call : Type 0 where
  time : Call
  gmtime : (t : ℤ) → Call
  localtime : (t : ℤ) → Call
  deref : (p : ℤ) → Call
  gmtime_r : (t : ℤ) → Call
  localtime_r : (t : ℤ) → Call

-- The value of the call, and the struct behind `deref`, gmtime_r and localtime_r.
pub record Reply : Type 0 where
  pub ret : ℤ
  pub tm : Tm

-- printf (format, tm->tm_year + 1900, tm->tm_mon + 1, ...); the texts are translated.
unfoldable pub show_time : String → Tm → Prog Call Reply (Unit {0})
show_time format tm = printf format (
    num (tm.tm_year -ℤ negsuc 1899)
    ∷ num (pos (tm.tm_mon + 1))
    ∷ num (pos tm.tm_mday)
    ∷ num (pos tm.tm_hour)
    ∷ num (pos tm.tm_min)
    ∷ num (pos tm.tm_sec)
    ∷ [])

unfoldable pub main : Prog Call Reply (Unit {0})
main = do
  t ← sys time
  tm1 ← sys (gmtime t.ret)
  tm2 ← sys (localtime t.ret)
  when (is_zero tm1.ret || is_zero tm2.ret) do perror "gtime, localtime error: "; exit minus_one
  a ← sys (deref tm1.ret)
  show_time "gmtime : %d-%d-%d %d:%d:%d\n" a.tm
  b ← sys (deref tm2.ret)
  show_time "localtime : %d-%d-%d %d:%d:%d\n" b.tm
  tim1 ← sys (gmtime_r t.ret)
  tim2 ← sys (localtime_r t.ret)
  show_time "gmtime : %d-%d-%d %d:%d:%d\n" tim1.tm
  show_time "localtime : %d-%d-%d %d:%d:%d\n" tim2.tm
  exit (pos 0)
