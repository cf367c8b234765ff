-- ===== src/Process/Signal.antt =====
-- signal_example.c: handlers, an ignored signal, a blocked signal, and a signal with a value.
pub mod Delivery
pub mod Laws
mod Tests
use linux_system_programming.Prelude.{
  ℕ, ◌+◌, ℤ, pos, minus_one, is_minus_one, Bool, List, [], ◌∷◌, ◌==◌, if◌then◌else◌,
}
use linux_system_programming.Sys.{
  num, Prog, ret, halt, print, call, ◌>>=◌, ◌>>◌, printf, perror, exit, when, err, out,
}

abbrev pub sigint : ℕ
sigint = 2

abbrev pub sigusr1 : ℕ
sigusr1 = 10

abbrev pub sigtstp : ℕ
sigtstp = 20

-- The fields of siginfo_t that the program reads.
pub record Siginfo : Type 0 where
  pub si_pid : ℤ
  pub by_user : Bool  -- si_code == SI_USER
  pub sival_int : ℤ

-- A handler that the kernel calls, with the signal's number.
-- `terminate` is the default action of SIGINT and of SIGUSR1.
pub data Handler : Type 0 where
  terminate : (signo : ℕ) → Handler
  basic : (signo : ℕ) → Handler
  advanced : (signo : ℕ) (si : Siginfo) → Handler

pub data Call : Type 0 where
  getpid : Call
  signal_basic : (signo : ℕ) → Call  -- signal (signo, basic_handler)
  signal_ignore : (signo : ℕ) → Call  -- signal (signo, SIG_IGN)
  block : (set : List ℕ) → Call  -- sigprocmask (SIG_BLOCK, &set, &oldset)
  setmask : (set : List ℕ) → Call  -- sigprocmask (SIG_SETMASK, &set, NULL)
  sleep : (seconds : ℕ) → Call
  raise : (signo : ℕ) → Call
  sigaction_advanced : (signo : ℕ) → Call  -- SA_SIGINFO with advanced_handler
  sigqueue : (pid : ℤ) (signo : ℕ) (value : ℤ) → Call

-- The value of the call, the old mask behind `block`, and the handlers that run before it returns.
pub record Reply : Type 0 where
  pub ret : ℤ
  pub oldset : List ℕ
  pub handlers : List Handler

unfoldable pub basic_handler : ℕ → Prog Call Reply (Unit {0})
basic_handler signo = when (signo == sigint) (printf "[Handler] SIGINT(Ctrl+C)\n" [])

unfoldable pub advanced_handler : ℕ → Siginfo → Prog Call Reply (Unit {0})
advanced_handler signo si = do
  printf "[Advanced Handler] signal: %d\n" (num (pos signo) ∷ [])
  printf "sender's PID: %d\n" (num si.si_pid ∷ [])
  when si.by_user (printf "cause: user (kill or raise)\n" [])
  printf "value: %d\n" (num si.sival_int ∷ [])

unfoldable pub handle : List Handler → Prog Call Reply (Unit {0})
unfolding basic_handler advanced_handler
handle [] = ret tt
handle (terminate signo ∷ hs) = exit (pos (128 + signo))  -- as a shell tells it
handle (basic signo ∷ hs) = do basic_handler signo; handle hs
handle (advanced signo si ∷ hs) = do advanced_handler signo si; handle hs

-- A call, and the handlers that run in it.
unfoldable pub enter : Call → Prog Call Reply Reply
enter c = call c λ r. handle r.handlers >> ret r

abbrev enter_ : Call → Prog Call Reply (Unit {0})
enter_ c = enter c >>= λ _. ret tt

-- The printed texts are translated.
unfoldable pub main : Prog Call Reply (Unit {0})
unfolding enter
main = do
  pid ← enter getpid
  printf "PID: %d - start.\n" (num pid.ret ∷ [])
  r ← enter (signal_basic sigint)
  when (is_minus_one r.ret) do perror "signal registration fail"; exit minus_one
  enter_ (signal_ignore sigtstp)
  printf "1. SIGINT has a handler, SIGTSTP is ignored.\n" []
  printf "2. SIGINT is blocked for 5 seconds.\n" []
  old ← enter (block (sigint ∷ []))
  enter_ (sleep 5)
  printf "3. SIGINT is unblocked.\n" []
  enter_ (setmask old.oldset)
  printf "4. raise () sends SIGINT.\n" []
  enter_ (raise sigint)
  a ← enter (sigaction_advanced sigusr1)
  when (is_minus_one a.ret) do perror "sigaction fail"; exit minus_one
  printf "5. sigqueue () sends SIGUSR1 with a value.\n" []
  self ← enter getpid
  enter_ (sigqueue self.ret sigusr1 (pos 2024))
  printf "6. The program ends.\n" []
  exit (pos 0)
