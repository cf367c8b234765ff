-- ===== src/Process/Status.antt =====
-- wait_example.c and parent_child_example.c: a parent waits for its child and reads the status.
pub mod Both
pub mod Laws
mod Tests
use linux_system_programming.Prelude.{
  ℕ, zero, suc, ◌+◌, ◌*◌, ◌/◌, ◌%◌, ◌-◌, ℤ, pos, negsuc, is_minus_one, is_zero, is_negative, Bool,
  true, false, not, ◌&&◌, List, [], ◌∷◌, ◌==◌, if◌then◌else◌,
}
use linux_system_programming.Sys.{
  num, Prog, ret, halt, print, call, ◌>>=◌, ◌>>◌, sys, sys_, printf, perror, exit, when, err, out,
}

pub data Call : Type 0 where
  fork : Call
  wait : Call
  sleep : (seconds : ℕ) → Call

-- The value of the call, and what `status` holds behind `wait`.
pub record Reply : Type 0 where
  pub ret : ℤ
  pub status : ℕ

-- The macros of sys/wait.h on a status word.
unfoldable pub wexitstatus : ℕ → ℕ
wexitstatus status = status / 256 % 256

unfoldable pub wtermsig : ℕ → ℕ
wtermsig status = status % 128

unfoldable pub wstopsig : ℕ → ℕ
wstopsig status = status / 256 % 256

unfoldable pub wifexited : ℕ → Bool
unfolding wtermsig
wifexited status = wtermsig status == 0

unfoldable pub wifsignaled : ℕ → Bool
unfolding wtermsig
wifsignaled status = not (wtermsig status == 0) && not (wtermsig status == 127)

unfoldable pub wifstopped : ℕ → Bool
wifstopped status = status % 256 == 127

unfoldable pub wifcontinued : ℕ → Bool
wifcontinued status = status == 65535

unfoldable pub wcoredump : ℕ → Bool
wcoredump status = status / 128 % 2 == 1

-- wait_example.c behind its `wait`. Its first test is WIFEXISTED, which sys/wait.h does not have.
unfoldable pub report : (ℕ → Bool) → ℕ → Prog Call Reply (Unit {0})
report wifexisted status = do
  when (wifexisted status) (
      printf "child process terminated with exit status(%d)\n"
        (num (pos (wexitstatus status)) ∷ []))
  when (wifsignaled status) do
    printf "child process killed by signal (%d)\n" (num (pos (wtermsig status)) ∷ [])
    when (wcoredump status) (printf "child process dumped core\n" [])
  when (wifstopped status)
      (printf "child process stopped by signal (%d)\n" (num (pos (wstopsig status)) ∷ []))
  when (wifcontinued status) (printf "child process continued\n" [])

-- `main` of wait_example.c
unfoldable pub wait_main : (ℕ → Bool) → Prog Call Reply (Unit {0})
wait_main wifexisted = do
  f ← sys fork
  when (is_zero f.ret) (exit (pos 1))
  w ← sys wait
  when (is_minus_one w.ret) (perror "wait error: ")
  printf "pid = %d\n" (num w.ret ∷ [])
  report wifexisted w.status
  exit (pos 0)

-- `main` of parent_child_example.c; the texts are translated.
unfoldable pub parent_child_main : Prog Call Reply (Unit {0})
parent_child_main = do
  f ← sys fork
  if is_zero f.ret
      then (do printf "child: ends in 3 seconds (exit code 7)\n" []; sys_ (sleep 3); exit (pos 7))
      else if is_negative f.ret
      then ret tt
      else (do
        printf "parent: waiting for the child...\n" []
        w ← sys wait
        if wifexited w.status
            then printf "parent: child ended, exit code: %d\n"
                (num (pos (wexitstatus w.status)) ∷ [])
            else when (wifsignaled w.status)
                (printf "parent: child killed, signal: %d\n" (num (pos (wtermsig w.status)) ∷ [])))
  exit (pos 0)
