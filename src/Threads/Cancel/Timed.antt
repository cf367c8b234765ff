-- ===== src/Threads/Cancel/Timed.antt =====
-- A kernel for pthread_cancel_example.c: main is the pair's parent, the thread its child.
use linux_system_programming.Prelude.{
  ℕ, ◌+◌, pos, Bool, true, false, leb, [], Option, none, some, if◌then◌else◌,
}
use linux_system_programming.Sys.{Reply, End}
use linux_system_programming.Pair.{Shared}
use linux_system_programming.Threads.Cancel.{Call, pthread_create, sleep, wake, pthread_cancel}

-- The time, until when each thread sleeps, if it does, and whether the thread was cancelled.
pub record Timed : Type 0 where
  pub now : ℕ
  pub main_until : Option ℕ
  pub thread_until : Option ℕ
  pub cancelled : Bool

abbrev done : Timed → Option (Reply × Timed)
done t = some (record { ret = pos 0; errno = 0; text = [] }, t)

-- Time passes only while both sleep, and the one that is due first wakes; if both are due, either.
abbrev due : Option End → Option ℕ → Option ℕ → Option ℕ
due other none v = none
due (some e) (some u) v = some u
due none (some u) none = none
due none (some u) (some v) = if leb u v then some u else none

abbrev main_wakes : Timed → Option ℕ → Option (Reply × Timed)
main_wakes t none = none
main_wakes t (some u) = done (record t { now = u; main_until = none })

abbrev thread_wakes : Timed → Option ℕ → Option (Reply × Timed)
thread_wakes t none = none
thread_wakes t (some u) = done (record t { now = u; thread_until = none })

-- A sleep is where a thread that was cancelled ends: it makes no call any more.
unfoldable pub timed : Shared Call Reply Timed
timed who other pthread_create t = done t
timed true other (sleep n) t = done (record t { main_until = some (t.now + n) })
timed false other (sleep n) t =
    if t.cancelled then none else done (record t { thread_until = some (t.now + n) })
timed true other wake t = main_wakes t (due other t.main_until t.thread_until)
timed false other wake t =
    if t.cancelled then none else thread_wakes t (due other t.thread_until t.main_until)
timed who other pthread_cancel t = done (record t { cancelled = true })
