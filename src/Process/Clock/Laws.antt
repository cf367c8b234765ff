-- ===== src/Process/Clock/Laws.antt =====
-- gmtime_localtime.c: which time each line shows.
use linux_system_programming.Prelude.{
  ◌+◌, ℤ, pos, negsuc, minus_one, ◌-ℤ◌, [], ◌∷◌, Option, none, some, ◌≡◌, refl, String,
}
use linux_system_programming.Sys.{Line, num, out, err, halted, exited, run}
use linux_system_programming.Process.Clock.{Tm, show_time, main}
use linux_system_programming.Process.Clock.Store.{Store, library}

abbrev pub line : String → Tm → Line
line format tm = out format (
    num (tm.tm_year -ℤ negsuc 1899)
    ∷ num (pos (tm.tm_mon + 1))
    ∷ num (pos tm.tm_mday)
    ∷ num (pos tm.tm_hour)
    ∷ num (pos tm.tm_min)
    ∷ num (pos tm.tm_sec)
    ∷ [])

abbrev pub utc_format : String
utc_format = "gmtime : %d-%d-%d %d:%d:%d\n"

abbrev pub local_format : String
local_format = "localtime : %d-%d-%d %d:%d:%d\n"

-- Where the moment has a UTC and a local time, the first two lines both show the local one, since
-- localtime overwrites the struct that gmtime's pointer leads to; the last two show each its own.
pub main-aliases :
    (utc local : ℤ → Option Tm) (s : Store) (u l : Tm)
    → utc s.now ≡ some u
    → local s.now ≡ some l
    → let r = run (library utc local) main s in
      (r.result ≡ halted (exited (pos 0)))
      × (r.lines
          ≡ line utc_format l ∷ line local_format l ∷ line utc_format u ∷ line local_format l ∷ [])
unfolding main show_time library
main-aliases utc local s u l a b = rw a (rw b (rw a (rw b (refl, refl))))

-- Where the moment has no UTC time the program reports an error and returns -1.
pub main-no_time :
    (utc local : ℤ → Option Tm) (s : Store)
    → utc s.now ≡ none
    → let r = run (library utc local) main s in
      (r.result ≡ halted (exited minus_one)) × (r.lines ≡ err "gtime, localtime error: " ∷ [])
unfolding main library
main-no_time utc local s a = rw a (refl, refl)
