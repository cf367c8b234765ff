-- ===== src/Ipc/PosixMq.antt =====
-- POSIX/posix_mq_receiver.c and POSIX/posix_mq_sender.c: one message of a POSIX queue, and the
-- thread that a notification starts.
pub mod Queue
pub mod Laws
mod Tests
use linux_system_programming.Prelude.{
  ℕ, ℤ, pos, is_minus_one, is_zero, not, List, [], ◌∷◌, ◌++◌, none, some, ◌==◌, if◌then◌else◌,
  String, length,
}
use linux_system_programming.Sys.{
  num, str, Prog, ret, halt, print, call, ◌>>=◌, ◌>>◌, sys, sys_, printf, perror, eprintf, exit,
  when, undefined, err, out,
}
use linux_system_programming.Libc.{c_string, overlay, codes}

pub data Call : Type 0 where
  mq_open_read : (name : List ℕ) (maxmsg msgsize : ℕ) → Call  -- O_CREAT | O_RDONLY, 0644
  mq_open_write : (name : List ℕ) → Call  -- O_WRONLY
  mq_getattr : (mqdes : ℤ) → Call
  malloc : (size : ℕ) → Call
  mq_receive : (mqdes : ℤ) (size : ℕ) → Call
  free : Call
  mq_notify : (mqdes : ℤ) → Call  -- SIGEV_THREAD with `tfunc`
  pause : Call
  mq_send : (mqdes : ℤ) (text : List ℕ) → Call

-- The value of the call, with attr.mq_msgsize after mq_getattr, the block's bytes after malloc, and
-- the message after mq_receive.
pub record Reply : Type 0 where
  pub ret : ℤ
  pub msgsize : ℕ
  pub text : List ℕ

-- The macro `handle_error`.
abbrev pub handle_error : {A : Type 0} → String → Prog Call Reply A
handle_error msg = do perror msg; exit (pos 1)

-- The notification's thread.
unfoldable pub tfunc : ℤ → Prog Call Reply (Unit {0})
tfunc mqdes = do
  attr ← sys (mq_getattr mqdes)
  when (is_minus_one attr.ret) (handle_error "mq_getattr")
  buf ← sys (malloc attr.msgsize)
  when (is_zero buf.ret) (handle_error "malloc")
  nr ← sys (mq_receive mqdes attr.msgsize)
  when (is_minus_one nr.ret) (handle_error "mq_receive")
  printf "Read %zd bytes from MQ\n" (num nr.ret ∷ [])
  elim (c_string (overlay nr.text buf.text)) [
    | none ↦ halt undefined
    | some message ↦ (do printf "message: %s\n" (str message ∷ []); sys_ free; exit (pos 0))
  ]

-- The test on argv[1][0].
abbrev pub starts_with_slash : List ℕ → Prog Call Reply (Unit {0}) → Prog Call Reply (Unit {0})
starts_with_slash [] p = do eprintf "mq-name(%s) must start with slash(/)\n"; exit (pos 1)
starts_with_slash (c ∷ _) p = do
  when (not (c == b'/')) do eprintf "mq-name(%s) must start with slash(/)\n"; exit (pos 1)
  p

-- Behind `pause` the receiver falls off the end of `main`.
unfoldable pub receiver : List (List ℕ) → Prog Call Reply (Unit {0})
receiver (name ∷ mq_name ∷ []) = starts_with_slash mq_name do
  mqdes ← sys (mq_open_read mq_name 2 1024)
  when (is_minus_one mqdes.ret) (handle_error "mq_open")
  n ← sys (mq_notify mqdes.ret)
  when (is_minus_one n.ret) (handle_error "mq_notify")
  sys_ pause
  exit (pos 0)
receiver _ = do eprintf "Usage: %s <mq-name>\n"; exit (pos 1)

unfoldable pub sender : List (List ℕ) → Prog Call Reply (Unit {0})
sender (name ∷ mq_name ∷ []) = starts_with_slash mq_name do
  mqdes ← sys (mq_open_write mq_name)
  when (is_minus_one mqdes.ret) (handle_error "mq_open")
  nr ← sys (mq_send mqdes.ret (codes "Hello, World!" ++ (0 ∷ [])))
  when (is_minus_one nr.ret) (handle_error "mq_send")
  exit (pos 0)
sender _ = do eprintf "Usage: %s <mq-name>\n"; exit (pos 1)
