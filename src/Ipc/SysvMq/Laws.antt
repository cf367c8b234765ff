-- ===== src/Ipc/SysvMq/Laws.antt =====
-- SysV/sysv_mq_example.c: which command lines are refused, and that a message sent is received.
use linux_system_programming.Prelude.{
  ℕ, ◌<◌, ℤ, pos, minus_one, true, false, not, ◌&&◌, List, [], ◌∷◌, ◌++◌, none, some, ◌==◌, take,
  length, ltb, ◌≡◌, refl, ap, ◌∙◌, arith, Bool-cases, inl, inr,
}
use linux_system_programming.Sys.{str, out, halted, exited, Reply, Kernel, run, run->>=, and_then}
use linux_system_programming.Libc.{c_string, overlay}
use linux_system_programming.Ipc.SysvMq.{
  Opt, Call, msgget, msgrcv, defaults, usage, message_text, send_msg, get_msg, serve, main,
  mtext_size,
}
use linux_system_programming.Ipc.SysvMq.Queue.{Message, Mq, update, receive, mq}
use linux_system_programming.Ipc.SysvMq.Options.{
  accepted, selects_mode, all_of, any_of, settings, run-parse, run-parse_refused, mode-settings,
}

module _ (ctime : ℤ → List ℕ) (stack : List ℕ) {S : Type 0} (h : Kernel Call Reply S) where
  -- A command line with an unknown option, a type that is not positive, or neither -s nor -r ends
  -- with EXIT_FAILURE before any system call on a queue.
  pub main-refused :
      (name : List ℕ) (opts : List Opt) (k : S)
      → all_of accepted opts && any_of selects_mode opts ≡ false
      → let r = run h (main ctime stack name opts) k in
        (r.result ≡ halted (exited (pos 1))) × (r.calls ≡ [])
  unfolding main serve usage
  main-refused name opts k e = rw (run->>= h) (elim (Bool-cases (all_of accepted opts)) [
    | inl a ↦
        let m : any_of selects_mode opts ≡ false = ground arith in
        let z : (settings opts defaults).mode == 0 ≡ true =
          mode-settings opts defaults ∙ ap (λ b. not b && true) m in
        rw (run-parse h name opts defaults k a) (rw z (refl, refl))
    | inr a ↦ let (r, c) = run-parse_refused h name opts defaults k a in rw (r, and_then) (refl, c)
  ])

mq-msgget :
    (key : ℤ) (m : Mq)
    → mq (msgget key) m ≡ (record { ret = pos (m.id key); errno = 0; text = [] }, m)
unfolding mq
mq-msgget key m = refl

-- The two outcomes of a receive.
mq-msgrcv :
    (qid t : ℤ) (size : ℕ) (m : Mq) (r : Message) (rest : List Message)
    → receive t (m.queues qid) ≡ some (r, rest)
    → mq (msgrcv qid t size) m ≡ (
      record { ret = pos (length (take size r.mtext)); errno = 0; text = take size r.mtext },
      record m { queues = update m.queues qid rest },
    )
unfolding mq
mq-msgrcv qid t size m r rest h = rw h

mq-msgrcv_none :
    (qid t : ℤ) (size : ℕ) (m : Mq)
    → receive t (m.queues qid) ≡ none
    → mq (msgrcv qid t size) m ≡ (record { ret = minus_one; errno = 42; text = [] }, m)
unfolding mq
mq-msgrcv_none qid t size m h = rw h

-- The queue of the selected key.
abbrev pub key_queue : List Opt → Mq → ℤ
key_queue opts m = pos (m.id (settings opts defaults).msgkey)

module _ (ctime : ℤ → List ℕ) (stack : List ℕ) where
  -- The 80 bytes that a send takes from the stack.
  abbrev pub payload : ℤ → List ℕ
  payload t = overlay (message_text ctime stack t ++ (0 ∷ [])) stack

  -- With accepted options of which the last of -s and -r is -s, a run puts a message of the selected
  -- type at the end of a queue that has room, and prints its text.
  pub main-send :
      (name : List ℕ) (opts : List Opt) (m : Mq)
      → all_of accepted opts ≡ true
      → (settings opts defaults).mode ≡ 1
      → length (m.queues (key_queue opts m)) < m.limit
      → let r = run mq (main ctime stack name opts) m in
        (r.result ≡ halted (exited (pos 0)))
        × (r.state ≡ record m {
          queues = update m.queues (key_queue opts m) (
              m.queues (key_queue opts m)
              ++ (record { mtype = (settings opts defaults).msgtype; mtext = payload m.clock }
                  ∷ []));
        })
        × (r.lines ≡ out "sent: %s\n" (str (message_text ctime stack m.clock) ∷ []) ∷ [])
  unfolding main serve send_msg mq
  main-send name opts m a mode room =
      let f : ltb (length (m.queues (key_queue opts m))) m.limit ≡ true = ground arith in
      rw (run->>= mq) (rw (run-parse mq name opts defaults m a) (rw mode (rw f (refl, refl, refl))))

  -- With accepted options of which the last of -s and -r is -r, a run prints the oldest message of
  -- the selected type, if that is a terminated text, and takes it, and no other, from the queue.
  pub main-receive :
      (name : List ℕ) (opts : List Opt) (m : Mq) (r : Message) (rest : List Message) (text : List ℕ)
      → all_of accepted opts ≡ true
      → (settings opts defaults).mode ≡ 2
      → receive (settings opts defaults).msgtype (m.queues (key_queue opts m)) ≡ some (r, rest)
      → c_string (overlay (take mtext_size r.mtext) stack) ≡ some text
      → let k = run mq (main ctime stack name opts) m in
        (k.result ≡ halted (exited (pos 0)))
        × (k.state ≡ record m { queues = update m.queues (key_queue opts m) rest })
        × (k.lines ≡ out "message received: %s\n" (str text ∷ []) ∷ [])
  unfolding main serve get_msg
  main-receive name opts m r rest text a mode got shown = rw (run->>= mq) (
      rw (run-parse mq name opts defaults m a) (
        rw mode (
          rw (mq-msgget (settings opts defaults).msgkey m) (
            rw
              (mq-msgrcv (key_queue opts m) (settings opts defaults).msgtype mtext_size m r rest
                got)
              (rw shown (refl, refl, refl))))))

  -- With accepted options of which the last of -s and -r is -r, and no message of the type in the
  -- queue, a run says so, succeeds and changes nothing.
  pub main-receive-none :
      (name : List ℕ) (opts : List Opt) (m : Mq)
      → all_of accepted opts ≡ true
      → (settings opts defaults).mode ≡ 2
      → receive (settings opts defaults).msgtype (m.queues (key_queue opts m)) ≡ none
      → let k = run mq (main ctime stack name opts) m in
        (k.result ≡ halted (exited (pos 0)))
        × (k.state ≡ m)
        × (k.lines ≡ out "No message available for msgrcv()\n" [] ∷ [])
  unfolding main serve get_msg
  main-receive-none name opts m a mode got = rw (run->>= mq) (
      rw (run-parse mq name opts defaults m a) (
        rw mode (
          rw (mq-msgget (settings opts defaults).msgkey m) (
            rw (mq-msgrcv_none (key_queue opts m) (settings opts defaults).msgtype mtext_size m got)
              (refl, refl, refl)))))
