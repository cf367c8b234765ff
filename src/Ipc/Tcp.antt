-- ===== src/Ipc/Tcp.antt =====
-- socket/tcp_server.c and socket/tcp_client.c: the server greets one client over TCP.
pub mod Both
pub mod Laws
mod Tests
use linux_system_programming.Prelude.{
  ℕ, ◌+◌, ℤ, pos, minus_one, is_minus_one, List, [], ◌∷◌, ◌++◌, none, some, if◌then◌else◌,
}
use linux_system_programming.Sys.{
  Reply, str, Prog, ret, halt, print, call, ◌>>=◌, ◌>>◌, sys, sys_, printf, exit, when, undefined,
  out,
}
use linux_system_programming.Libc.{c_string, overlay, codes}

-- Sockets are for IPv4 (AF_INET, SOCK_STREAM); ports in host order.
pub data Call : Type 0 where
  socket : Call
  connect : (sock : ℤ) (port : ℕ) → Call  -- to 127.0.0.1
  bind : (sock : ℤ) (port : ℕ) → Call  -- to INADDR_ANY
  listen : (sock : ℤ) (backlog : ℕ) → Call
  accept : (sock : ℤ) → Call
  read : (sock : ℤ) (size : ℕ) → Call
  write : (sock : ℤ) (bytes : List ℕ) → Call
  close : (sock : ℤ) → Call

abbrev pub port : ℕ
port = 9000

-- `message`, with its NUL
abbrev pub greeting : List ℕ
greeting = codes "Hello, Socket Programming!" ++ (0 ∷ [])

unfoldable pub server : Prog Call Reply (Unit {0})
server = do
  serv_sock ← sys socket
  sys_ (bind serv_sock.ret port)
  sys_ (listen serv_sock.ret 5)
  clnt_sock ← sys (accept serv_sock.ret)
  sys_ (write clnt_sock.ret greeting)
  sys_ (close clnt_sock.ret)
  sys_ (close serv_sock.ret)
  exit (pos 0)

-- `buffer` is what the uninitialised array of 1024 bytes holds. The value of read is not looked at.
unfoldable pub client : List ℕ → Prog Call Reply (Unit {0})
client buffer = do
  sock ← sys socket
  c ← sys (connect sock.ret port)
  when (is_minus_one c.ret) do printf "Connection failed\n" []; exit minus_one
  r ← sys (read sock.ret 1023)
  elim (c_string (overlay r.text buffer)) [
    | none ↦ halt undefined
    | some text ↦ (do
      printf "Message from server: %s\n" (str text ∷ [])
      sys_ (close sock.ret)
      exit (pos 0))
  ]
