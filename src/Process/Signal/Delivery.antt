-- ===== src/Process/Signal/Delivery.antt =====
-- A kernel for signal_example.c: the mask as far as SIGINT is concerned, the pending SIGINT, and what
-- the user presses during the sleep.
use linux_system_programming.Prelude.{
  ℕ, zero, suc, ℤ, pos, minus_one, same_ℤ, not, ◌&&◌, Bool, true, false, ◌||◌, List, [], ◌∷◌, ◌==◌,
  if◌then◌else◌, replicate,
}
use linux_system_programming.Sys.{Kernel}
use linux_system_programming.Process.Signal.{
  Handler, terminate, basic, advanced, Call, Reply, getpid, signal_basic, signal_ignore, block,
  setmask, sleep, raise, sigaction_advanced, sigqueue, sigint, sigusr1,
}

-- `catches_int` and `catches_usr1` say whether the handlers are registered; `presses` counts the
-- Ctrl+C that come during the sleep. Signals do not queue: however often a blocked one is sent, it
-- is pending once.
pub record Process : Type 0 where
  pub pid : ℕ
  pub catches_int : Bool
  pub catches_usr1 : Bool
  pub blocked : Bool
  pub pending : Bool
  pub presses : ℕ

abbrev pub holds : ℕ → List ℕ → Bool
holds signo [] = false
holds signo (x ∷ xs) = x == signo || holds signo xs

abbrev answer : ℤ → Process → Reply × Process
answer n p = (record { ret = n; oldset = []; handlers = [] }, p)

-- What a SIGINT does.
abbrev on_int : Process → Handler
on_int p = if p.catches_int then basic sigint else terminate sigint

-- Some SIGINT are sent: they wait if they are blocked, and are delivered if not.
abbrev sent : ℕ → Bool → Process → Reply × Process
sent zero blocked p = answer (pos 0) p
sent (suc n) true p = answer (pos 0) (record p { pending = true })
sent (suc n) false p =
    (record { ret = pos 0; oldset = []; handlers = replicate (suc n) (on_int p) }, p)

-- The mask is set: a pending SIGINT that is no longer blocked is delivered.
abbrev masked : Bool → Bool → Process → Reply × Process
masked false true p = (
  record { ret = pos 0; oldset = []; handlers = on_int p ∷ [] },
  record p { blocked = false; pending = false },
)
masked blocked _ p = answer (pos 0) (record p { blocked = blocked })

-- SIGUSR1 with a value, to the process itself.
abbrev queued : ℕ → ℤ → Process → List Handler
queued signo value p =
    if p.catches_usr1
    then advanced signo (record { si_pid = pos p.pid; by_user = false; sival_int = value }) ∷ []
    else terminate signo ∷ []

-- The program raises SIGINT alone and queues SIGUSR1 alone, to itself; any other signal or receiver is
-- an error here.
unfoldable pub process : Kernel Call Reply Process
process getpid p = answer (pos p.pid) p
process (signal_basic signo) p =
    answer (pos 0) (record p { catches_int = p.catches_int || signo == sigint })
process (signal_ignore signo) p =
    answer (pos 0) (record p { catches_int = p.catches_int && not (signo == sigint) })
process (block set) p = (
  record { ret = pos 0; oldset = if p.blocked then sigint ∷ [] else []; handlers = [] },
  record p { blocked = p.blocked || holds sigint set },
)
process (setmask set) p = masked (holds sigint set) p.pending p
process (sleep n) p = sent p.presses p.blocked p
process (raise signo) p = if signo == sigint then sent 1 p.blocked p else answer minus_one p
process (sigaction_advanced signo) p =
    answer (pos 0) (record p { catches_usr1 = p.catches_usr1 || signo == sigusr1 })
process (sigqueue pid signo value) p =
    if same_ℤ pid (pos p.pid) && signo == sigusr1
    then (record { ret = pos 0; oldset = []; handlers = queued signo value p }, p)
    else answer minus_one p
