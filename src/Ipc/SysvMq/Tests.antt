-- ===== src/Ipc/SysvMq/Tests.antt =====
-- SysV/sysv_mq_example.c: the theorems at concrete command lines and queues.
use linux_system_programming.Prelude.{
  ℕ, ℤ, pos, true, List, [], ◌∷◌, some, ◌≡◌, refl, zeros, take, same_ℤ, if◌then◌else◌,
}
use linux_system_programming.Libc.{atoi, c_string, overlay}
use linux_system_programming.Ipc.SysvMq.{Opt, receive_opt, type_opt, defaults, mtext_size}
use linux_system_programming.Ipc.SysvMq.Queue.{Message, Mq, receive}
use linux_system_programming.Ipc.SysvMq.Options.{accepted, settings}

abbrev name : List ℕ
name = b'p' ∷ []

abbrev stack : List ℕ
stack = zeros 80

-- "now"
abbrev ctime : ℤ → List ℕ
ctime t = b'n' ∷ b'o' ∷ b'w' ∷ []

abbrev empty : Mq
empty = record { queues = λ _. []; limit = 2; id = λ _. 5; clock = pos 7 }

-- A message of type 2.
abbrev other : Message
other = record { mtype = pos 2; mtext = b'z' ∷ 0 ∷ [] }

abbrev waiting : Mq
waiting = record {
  queues = λ q. if same_ℤ q (pos 5) then other ∷ [] else [];
  limit = 2;
  id = λ _. 5;
  clock = pos 7;
}

abbrev type_two : Opt
type_two = type_opt (b'2' ∷ [])

accepted-type_two : accepted type_two ≡ true
unfolding atoi
accepted-type_two = refl

type_two-2 : (settings (receive_opt ∷ type_two ∷ []) defaults).msgtype ≡ pos 2
unfolding atoi
type_two-2 = refl

receive-other : receive (pos 2) (waiting.queues (pos 5)) ≡ some (other, [])
unfolding receive
receive-other = refl

c_string-other : c_string (overlay (take mtext_size other.mtext) stack) ≡ some (b'z' ∷ [])
unfolding c_string
c_string-other = refl
