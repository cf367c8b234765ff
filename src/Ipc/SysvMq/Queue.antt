-- ===== src/Ipc/SysvMq/Queue.antt =====
-- A kernel for SysV/sysv_mq_example.c: message queues, and the clock.
use linux_system_programming.Prelude.{
  ℕ, ℤ, pos, minus_one, true, false, List, [], ◌∷◌, ◌++◌, Option, none, some, ltb, if◌then◌else◌,
  length, take, same_ℤ,
}
use linux_system_programming.Sys.{Reply, Kernel}
use linux_system_programming.Ipc.SysvMq.{Call, msgget, time, msgsnd, msgrcv, enomsg}

pub record Message : Type 0 where
  pub mtype : ℤ
  pub mtext : List ℕ

-- The queues by their identifiers; `limit` is how many messages fit into one, and `id` is what msgget
-- gives for a key, whose queue is empty as long as nothing was sent to it.
pub record Mq : Type 0 where
  pub queues : ℤ → List Message
  pub limit : ℕ
  pub id : ℤ → ℕ
  pub clock : ℤ

-- Another content of one queue.
abbrev pub update : (ℤ → List Message) → ℤ → List Message → ℤ → List Message
update f q ms x = if same_ℤ q x then ms else f x

-- The first message of a type, and the queue without it.
unfoldable pub receive : ℤ → List Message → Option (Message × List Message)
receive t [] = none
receive t (m ∷ ms) = elim (same_ℤ m.mtype t) [
  | true ↦ some (m, ms)
  | false ↦ elim (receive t ms) [ none ↦ none | some (r, rest) ↦ some (r, m ∷ rest) ]
]

-- EAGAIN: the queue is full
abbrev eagain : ℕ
eagain = 11

-- The reply to a receive and what it leaves: the text cut to the size asked for.
abbrev received : ℤ → ℕ → Mq → Option (Message × List Message) → Reply × Mq
received qid size m none = (record { ret = minus_one; errno = enomsg; text = [] }, m)
received qid size m (some (r, rest)) = (
  record { ret = pos (length (take size r.mtext)); errno = 0; text = take size r.mtext },
  record m { queues = update m.queues qid rest },
)

unfoldable pub mq : Kernel Call Reply Mq
mq (msgget key) m = (record { ret = pos (m.id key); errno = 0; text = [] }, m)
mq time m = (record { ret = m.clock; errno = 0; text = [] }, m)
mq (msgsnd qid t text) m =
    if ltb (length (m.queues qid)) m.limit
    then (
      record { ret = pos 0; errno = 0; text = [] },
      record m {
        queues = update m.queues qid (m.queues qid ++ (record { mtype = t; mtext = text } ∷ []));
      },
    )
    else (record { ret = minus_one; errno = eagain; text = [] }, m)
mq (msgrcv qid t size) m = received qid size m (receive t (m.queues qid))
