-- ===== src/Files/StreamLock/Tests.antt =====
-- flock_example.c: a thread on a file of two lines, with a write that fails.
use linux_system_programming.Prelude.{ℕ, zero, suc, pos, minus_one, [], ◌∷◌, ◌≡◌, refl, arith}
use linux_system_programming.Sys.{Reply, Kernel, done, run}
use linux_system_programming.Files.StreamLock.{
  Call, fopen, flockfile, fgets, fputs, sleep, funlockfile, pthread_create, pthread_join, hello,
  mod_file_thread,
}
use linux_system_programming.Files.StreamLock.Laws.{end, line, mod_file_thread-Reads}

abbrev value : ℕ → Reply
value n = record { ret = pos n; errno = 0; text = [] }

-- The state is the number of lines that are left.
abbrev left : ℕ → Reply × ℕ
left zero = (value 0, zero)
left (suc n) = (record { ret = pos 1; errno = 0; text = b'a' ∷ 10 ∷ [] }, n)

abbrev broken : Kernel Call Reply ℕ
broken (fopen path) n = (value 1, n)
broken flockfile n = (value 0, n)
broken (fgets size) n = left n
broken (fputs text) n = (record { ret = minus_one; errno = 5; text = [] }, n)
broken (sleep k) n = (value 0, n)
broken funlockfile n = (value 0, n)
broken (pthread_create k) n = (value 0, n)
broken (pthread_join k) n = (value 0, n)

mod_file_thread-Reads_example :
    let r = run broken (mod_file_thread 3) 2 in
    (r.result ≡ done tt)
    × (r.calls ≡ flockfile ∷ fgets 1024 ∷ fgets 1024 ∷ fgets 1024 ∷ fputs hello ∷ [])
mod_file_thread-Reads_example =
    mod_file_thread-Reads broken 3 2 2 0 (omega arith) (line 2 refl (line 1 refl (end 0 refl)))
