-- ===== src/Threads/SemPosix/Program.antt =====
-- POSIX/sem_posix_example.c as it is written: `thread_t1`, `thread_t2` and `main`.
use linux_system_programming.Prelude.{
  ℕ, zero, suc, ◌+◌, ◌==◌, ℤ, pos, minus_one, is_minus_one, Bool, true, false, ◌||◌, [], ◌∷◌,
  Option, none, some, if◌then◌else◌,
}
use linux_system_programming.Sys.{
  Reply, num, Line, out, out_of_fuel, Prog, ret, halt, print, ◌>>=◌, ◌>>◌, sys, sys_, printf,
  perror, exit, when,
}

-- The threads are those of `tidx`: 0, 1, 2. One runs between `begins` and `ends`.
pub data Call : Type 0 where
  sem_init : (value : ℕ) → Call
  sem_wait : Call
  sem_trywait : Call
  sem_post : Call
  sem_destroy : Call
  sleep : (seconds : ℕ) → Call
  pthread_create : (tidx : ℕ) → Call
  pthread_join : (tidx : ℕ) → Call
  begins : (tidx : ℕ) → Call
  ends : (tidx : ℕ) → Call

abbrev pub eagain : ℕ
eagain = 11

-- The texts are translated.
abbrev pub wait_line : ℕ → Line
wait_line tidx = out "[%d] waiting for the resource (sem_wait)...\n" (num (pos tidx) ∷ [])

abbrev pub again_line : ℕ → Line
again_line tidx = out "[%d] no resource. back in a second...\n" (num (pos tidx) ∷ [])

abbrev pub enter_line : ℕ → Line
enter_line tidx = out "[%d] got the resource! into the critical section\n" (num (pos tidx) ∷ [])

abbrev pub leave_line : ℕ → Line
leave_line tidx =
    out "[%d] work done! giving the resource back (sem_post)\n\n" (num (pos tidx) ∷ [])

-- Both threads behind their wait.
abbrev work : ℕ → Prog Call Reply (Unit {0})
work tidx = do
  print (enter_line tidx) (ret tt)
  sys_ (sleep 3)
  print (leave_line tidx) (ret tt)
  sys_ sem_post

unfoldable pub thread_t1 : ℕ → Prog Call Reply (Unit {0})
thread_t1 tidx = do print (wait_line tidx) (ret tt); sys_ sem_wait; work tidx

-- From `retry:`, within a number of tries.
unfoldable pub thread_t2 : ℕ → ℕ → Prog Call Reply (Unit {0})
thread_t2 zero tidx = halt out_of_fuel
thread_t2 (suc fuel) tidx = do
  r ← sys sem_trywait
  let again = do print (again_line tidx) (ret tt); sys_ (sleep 1); thread_t2 fuel tidx
  if is_minus_one r.ret
      then (if r.errno == eagain then again else (do perror "sem_trywait error"; exit (pos 1)))
      else work tidx

-- A thread from its creation to the moment it can be joined.
abbrev pub spawned : ℕ → Prog Call Reply (Unit {0}) → Prog Call Reply (Unit {0})
spawned tidx thread = do sys_ (begins tidx); thread; sys_ (ends tidx)

unfoldable pub main : Prog Call Reply (Unit {0})
main = do
  r ← sys (sem_init 1)
  when (is_minus_one r.ret) do perror "sem_init error"; exit (pos 1)
  sys_ (pthread_create 0)
  sys_ (pthread_create 1)
  sys_ (pthread_create 2)
  sys_ (pthread_join 0)
  sys_ (pthread_join 1)
  sys_ (pthread_join 2)
  sys_ sem_destroy
  printf "all threads have ended.\n" []
  exit (pos 0)

-- The semaphore's value, and which threads were created and have ended.
pub record Shared : Type 0 where
  pub sem : ℕ
  pub created : ℕ → Bool
  pub ended : ℕ → Bool

abbrev pub with_true : ℕ → (ℕ → Bool) → ℕ → Bool
with_true i f j = i == j || f j

abbrev pub value : ℤ → Reply
value n = record { ret = n; errno = 0; text = [] }

abbrev done : Shared → Option (Reply × Shared)
done s = some (value (pos 0), s)

abbrev pub once : Bool → Shared → Option (Reply × Shared)
once true s = done s
once false s = none

-- A semaphore above 0 is taken; at 0 sem_wait waits, and sem_trywait fails with EAGAIN.
abbrev pub take : ℕ → Option (Reply × Shared) → Shared → Option (Reply × Shared)
take zero other s = other
take (suc n) other s = done (record s { sem = n })

unfoldable pub threads : Call → Shared → Option (Reply × Shared)
threads (sem_init value) s = done (record s { sem = value })
threads sem_wait s = take s.sem none s
threads sem_trywait s =
    take s.sem (some (record { ret = minus_one; errno = eagain; text = [] }, s)) s
threads sem_post s = done (record s { sem = s.sem + 1 })
threads sem_destroy s = done s
threads (sleep n) s = done s
threads (pthread_create tidx) s = done (record s { created = with_true tidx s.created })
threads (pthread_join tidx) s = once (s.ended tidx) s
threads (begins tidx) s = once (s.created tidx) s
threads (ends tidx) s = done (record s { ended = with_true tidx s.ended })
