-- ===== src/Ipc/PosixMq/Queue.antt =====
-- A kernel for the POSIX queue programs: one queue, and what an allocated block holds.
use linux_system_programming.Prelude.{
  ℕ, ℤ, pos, minus_one, Bool, true, false, Option, none, some, List, [], ◌∷◌, ◌++◌, ltb, leb, ◌&&◌,
  if◌then◌else◌, length, same_ℤ,
}
use linux_system_programming.Sys.{Kernel}
use linux_system_programming.Libc.{same_text}
use linux_system_programming.Ipc.PosixMq.{
  Call, Reply, mq_open_read, mq_open_write, mq_getattr, malloc, mq_receive, free, mq_notify, pause,
  mq_send,
}

-- The queue, if there is one, by its name; `size` is the longest message, `room` how many messages fit,
-- `garbage` the bytes that a new block holds, and `block` the size of the last one.
pub record Mq : Type 0 where
  pub queue : List (List ℕ)
  pub name : Option (List ℕ)
  pub notify : Bool
  pub room : ℕ
  pub size : ℕ
  pub garbage : ℕ → List ℕ
  pub block : ℕ

abbrev pub value : ℤ → Reply
value n = record { ret = n; msgsize = 0; text = [] }

-- A receive on an empty queue would wait: the kernel has no answer but a failure.
abbrev pub received : Mq → List (List ℕ) → Reply × Mq
received m [] = (value minus_one, m)
received m (r ∷ rest) =
    (record { ret = pos (length r); msgsize = 0; text = r }, record m { queue = rest })

-- A call on the descriptor that mq_open gives; on any other it fails.
abbrev on_queue : ℤ → Mq → Reply × Mq → Reply × Mq
on_queue d m r = if same_ℤ d (pos 3) then r else (value minus_one, m)

abbrev is_named : List ℕ → Option (List ℕ) → Bool
is_named name none = false
is_named name (some n) = same_text n name

-- A new queue takes the attributes asked for; one that exists keeps its own. A receive fails where the
-- size is less than the longest message (EMSGSIZE), and where the block is shorter than the size.
unfoldable pub mq : Kernel Call Reply Mq
mq (mq_open_read name maxmsg msgsize) m =
    if is_named name m.name
    then (value (pos 3), m)
    else (value (pos 3), record m { name = some name; room = maxmsg; size = msgsize; queue = [] })
mq (mq_open_write name) m = (if is_named name m.name then value (pos 3) else value minus_one, m)
mq (mq_getattr d) m = on_queue d m (record { ret = pos 0; msgsize = m.size; text = [] }, m)
mq (malloc n) m =
    (record { ret = pos 4096; msgsize = 0; text = m.garbage n }, record m { block = n })
mq (mq_receive d n) m =
    on_queue d m
      (if leb m.size n && leb n m.block then received m m.queue else (value minus_one, m))
mq free m = (value (pos 0), m)
mq (mq_notify d) m = on_queue d m (value (pos 0), record m { notify = true })
mq pause m = (value minus_one, m)
mq (mq_send d text) m = on_queue d m (
    if ltb (length m.queue) m.room && leb (length text) m.size
    then (value (pos 0), record m { queue = m.queue ++ (text ∷ []) })
    else (value minus_one, m))
