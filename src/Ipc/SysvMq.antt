-- ===== src/Ipc/SysvMq.antt =====
-- SysV/sysv_mq_example.c: send or receive one message of a System V queue.
pub mod Queue
pub mod Options
pub mod Laws
mod Tests
use linux_system_programming.Prelude.{
  ℕ, zero, suc, ◌+◌, ◌-◌, ℤ, pos, minus_one, is_minus_one, is_nonpositive, Bool, true, false, not,
  List, [], ◌∷◌, ◌++◌, Option, none, some, ◌==◌, if◌then◌else◌, take, String,
}
use linux_system_programming.Sys.{
  Arg, num, str, Line, out, err, Prog, ret, halt, print, call, ◌>>=◌, ◌>>◌, sys, sys_, printf,
  perror, exit, when, undefined, Reply,
}
use linux_system_programming.Libc.{atoi, codes, c_string, overlay}

-- What `getopt (argc, argv, "srt:k:")` returns, in order; anything else, a missing argument too, is
-- '?'.
pub data Opt : Type 0 where
  send_opt : Opt
  receive_opt : Opt
  type_opt : (optarg : List ℕ) → Opt
  key_opt : (optarg : List ℕ) → Opt
  unknown : Opt

pub data Call : Type 0 where
  msgget : (key : ℤ) → Call  -- msgget (key, IPC_CREAT | 0666)
  time : Call
  msgsnd : (qid mtype : ℤ) (mtext : List ℕ) → Call  -- with IPC_NOWAIT
  msgrcv : (qid mtype : ℤ) (size : ℕ) → Call  -- with MSG_NOERROR | IPC_NOWAIT

pub record Settings : Type 0 where
  pub mode : ℕ  -- 1 = send, 2 = receive
  pub msgtype : ℤ
  pub msgkey : ℤ

abbrev pub defaults : Settings
defaults = record { mode = 0; msgtype = pos 1; msgkey = pos 1234 }

-- `usage`: the message, the options, EXIT_FAILURE.
unfoldable pub usage : {A : Type 0} → List ℕ → String → Prog Call Reply A
usage prog_name msg = do
  printf msg []
  printf "Usage: %s [options]\n" (str prog_name ∷ [])
  printf "Options are:\n" []
  printf "-s send message using msgsnd()\n" []
  printf "-r read message using msgrcv()\n" []
  printf "-t message type (default is 1)\n" []
  printf "-k message queue key (default is 1234)\n" []
  exit (pos 1)

-- The `while` over `getopt`.
unfoldable pub parse : List ℕ → List Opt → Settings → Prog Call Reply Settings
parse name [] s = ret s
parse name (send_opt ∷ opts) s = parse name opts (record s { mode = 1 })
parse name (receive_opt ∷ opts) s = parse name opts (record s { mode = 2 })
parse name (type_opt optarg ∷ opts) s =
    let rest = parse name opts (record s { msgtype = atoi optarg }) in
    if is_nonpositive (atoi optarg) then usage name "-t option must be greater than 0\n" else rest
parse name (key_opt optarg ∷ opts) s = parse name opts (record s { msgkey = atoi optarg })
parse name (unknown ∷ opts) s = usage name "Unrecognized option\n"

-- sizeof (msg.mtext)
abbrev pub mtext_size : ℕ
mtext_size = 80

-- errno of an empty queue
abbrev pub enomsg : ℕ
enomsg = 42

-- `ctime` is the C library's; `stack` is what the uninitialised `msg.mtext` holds.
module _ (ctime : ℤ → List ℕ) (stack : List ℕ) where
  -- What `snprintf (msg.mtext, sizeof (msg.mtext), "a message at %s", ctime (&t))` stores before
  -- its NUL.
  abbrev pub message_text : ℤ → List ℕ
  message_text t = take 79 (codes "a message at " ++ ctime t)

  unfoldable pub send_msg : ℤ → ℤ → Prog Call Reply (Unit {0})
  send_msg qid msgtype = do
    t ← sys time
    let text = message_text t.ret
    r ← sys (msgsnd qid msgtype (overlay (text ++ (0 ∷ [])) stack))
    when (is_minus_one r.ret) do perror "msgsnd error"; exit (pos 1)
    printf "sent: %s\n" (str text ∷ [])

  -- The two branches of `get_msg`.
  unfoldable pub no_message : ℕ → Prog Call Reply (Unit {0})
  no_message errno = do
    when (not (errno == enomsg)) do perror "msgrcv"; exit (pos 1)
    printf "No message available for msgrcv()\n" []

  unfoldable pub show_message : List ℕ → Prog Call Reply (Unit {0})
  show_message text = elim (c_string (overlay text stack)) [
    | none ↦ halt undefined
    | some shown ↦ printf "message received: %s\n" (str shown ∷ [])
  ]

  unfoldable pub get_msg : ℤ → ℤ → Prog Call Reply (Unit {0})
  unfolding no_message show_message
  get_msg qid msgtype = do
    r ← sys (msgrcv qid msgtype mtext_size)
    if is_minus_one r.ret then no_message r.errno else show_message r.text

  -- `main` behind the options.
  unfoldable pub serve : List ℕ → Settings → Prog Call Reply (Unit {0})
  serve name s = do
    when (s.mode == 0) (usage name "must use either -s or -r option\n")
    q ← sys (msgget s.msgkey)
    when (is_minus_one q.ret) do perror "msgget"; exit (pos 1)
    if s.mode == 2 then get_msg q.ret s.msgtype else send_msg q.ret s.msgtype
    exit (pos 0)

  unfoldable pub main : List ℕ → List Opt → Prog Call Reply (Unit {0})
  main name opts = do s ← parse name opts defaults; serve name s
