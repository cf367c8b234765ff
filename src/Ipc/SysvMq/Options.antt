-- ===== src/Ipc/SysvMq/Options.antt =====
-- SysV/sysv_mq_example.c: what the loop over the options comes to.
use linux_system_programming.Prelude.{
  ℕ, pos, is_nonpositive, Bool, true, false, not, ◌&&◌, ◌||◌, List, [], ◌∷◌, ◌==◌, ◌≡◌, refl, arith,
}
use linux_system_programming.Sys.{halted, exited, Reply, Kernel, done, run}
use linux_system_programming.Libc.{atoi}
use linux_system_programming.Ipc.SysvMq.{
  Opt, send_opt, receive_opt, type_opt, key_opt, unknown, Call, Settings, usage, parse,
}

-- An option that `main` accepts.
abbrev pub accepted : Opt → Bool
accepted (type_opt optarg) = not (is_nonpositive (atoi optarg))
accepted unknown = false
accepted _ = true

abbrev pub selects_mode : Opt → Bool
selects_mode send_opt = true
selects_mode receive_opt = true
selects_mode _ = false

abbrev pub all_of : (Opt → Bool) → List Opt → Bool
all_of p [] = true
all_of p (o ∷ os) = p o && all_of p os

abbrev pub any_of : (Opt → Bool) → List Opt → Bool
any_of p [] = false
any_of p (o ∷ os) = p o || any_of p os

-- The settings that accepted options leave: of each kind the last one counts.
abbrev pub settings : List Opt → Settings → Settings
settings [] s = s
settings (send_opt ∷ os) s = settings os (record s { mode = 1 })
settings (receive_opt ∷ os) s = settings os (record s { mode = 2 })
settings (type_opt a ∷ os) s = settings os (record s { msgtype = atoi a })
settings (key_opt a ∷ os) s = settings os (record s { msgkey = atoi a })
settings (unknown ∷ os) s = settings os s

module _ {S : Type 0} (h : Kernel Call Reply S) (name : List ℕ) where
  pub run-parse :
      (opts : List Opt) (s : Settings) (k : S)
      → all_of accepted opts ≡ true
      → run h (parse name opts s) k
        ≡ record { result = done (settings opts s); state = k; calls = []; lines = [] }
  unfolding parse
  run-parse [] s k e = refl
  run-parse (send_opt ∷ os) s k e = run-parse os _ k e
  run-parse (receive_opt ∷ os) s k e = run-parse os _ k e
  run-parse (type_opt a ∷ os) s k e = ground (arith, run-parse os (record s { msgtype = atoi a }) k)
  run-parse (key_opt a ∷ os) s k e = run-parse os _ k e
  run-parse (unknown ∷ os) s k e = cc

  pub run-parse_refused :
      (opts : List Opt) (s : Settings) (k : S)
      → all_of accepted opts ≡ false
      → ((run h (parse name opts s) k).result ≡ halted (exited (pos 1)))
        × ((run h (parse name opts s) k).calls ≡ [])
  unfolding parse usage
  run-parse_refused [] s k e = cc
  run-parse_refused (send_opt ∷ os) s k e = run-parse_refused os _ k e
  run-parse_refused (receive_opt ∷ os) s k e = run-parse_refused os _ k e
  run-parse_refused (type_opt a ∷ os) s k e =
      ground (arith, run-parse_refused os (record s { msgtype = atoi a }) k)
  run-parse_refused (key_opt a ∷ os) s k e = run-parse_refused os _ k e
  run-parse_refused (unknown ∷ os) s k e = (refl, refl)

pub mode-settings :
    (opts : List Opt) (s : Settings)
    → (settings opts s).mode == 0 ≡ not (any_of selects_mode opts) && s.mode == 0
mode-settings [] s = refl
mode-settings (send_opt ∷ os) s = ground (arith, mode-settings os (record s { mode = 1 }))
mode-settings (receive_opt ∷ os) s = ground (arith, mode-settings os (record s { mode = 2 }))
mode-settings (type_opt a ∷ os) s = mode-settings os _
mode-settings (key_opt a ∷ os) s = mode-settings os _
mode-settings (unknown ∷ os) s = mode-settings os s
