-- ===== src/Threads/Bank/Program.antt =====
-- pthread_example.c as it is written: `withdrawal` and `main`, with their calls and their lines.
use linux_system_programming.Prelude.{
  ℕ, ℤ, pos, ◌-ℤ◌, Bool, true, false, not, ◌||◌, [], ◌∷◌, Option, none, some,
}
use linux_system_programming.Sys.{num, Prog, ◌>>=◌, ◌>>◌, sys, sys_, printf, exit}

-- `load` and `store` are the uses of `total_money`. A thread runs between `begins` and `ends`.
pub data Call : Type 0 where
  pthread_mutex_lock : Call
  pthread_mutex_unlock : Call
  load : Call
  store : (total : ℤ) → Call
  sleep : (seconds : ℕ) → Call
  pthread_create : (second : Bool) → Call
  pthread_join : (second : Bool) → Call
  begins : (second : Bool) → Call
  ends : (second : Bool) → Call

-- It ends with pthread_exit (NULL).
unfoldable pub withdrawal : ℤ → Prog Call ℤ (Unit {0})
withdrawal money = do
  sys_ pthread_mutex_lock
  printf "withdraw $%d from total balance\n" (num money ∷ [])
  total ← sys load
  sys_ (store (total -ℤ money))
  sys_ (sleep 3)
  printf "calculation finish. (withdraw $%d)\n" (num money ∷ [])
  sys_ pthread_mutex_unlock

-- A thread of `withdrawal`, from its creation to the moment it can be joined.
abbrev pub spawned : Bool → ℤ → Prog Call ℤ (Unit {0})
spawned second money = do sys_ (begins second); withdrawal money; sys_ (ends second)

-- `total_money` is 1000 in the program.
unfoldable pub main : ℤ → Prog Call ℤ (Unit {0})
main total = do
  sys_ (store total)
  t ← sys load
  printf "total money is $%d\n" (num t ∷ [])
  sys_ (pthread_create false)
  sys_ (pthread_create true)
  sys_ (pthread_join false)
  sys_ (pthread_join true)
  left ← sys load
  printf "The remained balance is $%d\n" (num left ∷ [])
  exit (pos 0)

-- The mutex, `total_money`, and which of the two threads were created and have ended.
pub record Memory : Type 0 where
  pub mutex : Bool
  pub total_money : ℤ
  pub created : Bool → Bool
  pub ended : Bool → Bool

abbrev pub same : Bool → Bool → Bool
same true b = b
same false b = not b

abbrev pub with_true : Bool → (Bool → Bool) → Bool → Bool
with_true b f c = same b c || f c

abbrev done : Memory → Option (ℤ × Memory)
done m = some (pos 0, m)

-- A wait for a condition.
abbrev pub once : Bool → Memory → Option (ℤ × Memory)
once true m = done m
once false m = none

abbrev pub take_mutex : Bool → Memory → Option (ℤ × Memory)
take_mutex true m = none
take_mutex false m = done (record m { mutex = true })

unfoldable pub threads : Call → Memory → Option (ℤ × Memory)
threads pthread_mutex_lock m = take_mutex m.mutex m
threads pthread_mutex_unlock m = done (record m { mutex = false })
threads load m = some (m.total_money, m)
threads (store total) m = done (record m { total_money = total })
threads (sleep n) m = done m
threads (pthread_create second) m = done (record m { created = with_true second m.created })
threads (pthread_join second) m = once (m.ended second) m
threads (begins second) m = once (m.created second) m
threads (ends second) m = done (record m { ended = with_true second m.ended })
