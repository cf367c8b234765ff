-- ===== src/Ipc/Tcp/Laws.antt =====
-- The socket programs: a greeting that arrives in part.
use linux_system_programming.Prelude.{
  false, refl, List, none, length, ◌≡◌, ◌<◌, drop, is_minus_one, All-append, ℕ,
}
use linux_system_programming.Sys.{halted, undefined, Kernel, Reply, run}
use linux_system_programming.Libc.{c_string, overlay, IsText, c_string-none}
use linux_system_programming.Ipc.Tcp.{Call, client, socket, connect, read, port}

module _ {S : Type 0} (h : Kernel Call Reply S) (buffer : List ℕ) (s : S) where
  -- Under every kernel: if the client connects, the bytes that one read brings have no NUL among them,
  -- as a part of the greeting has not, and neither has what the uninitialised buffer holds behind
  -- them, then the client's print runs past the buffer, which is undefined.
  pub client-unterminated :
      let (sock, s1) = h socket s in
      let (c, s2) = h (connect sock.ret port) s1 in
      let got = (h (read sock.ret 1023) s2).0.text in
      is_minus_one c.ret ≡ false
      → IsText got
      → IsText (drop (length got) buffer)
      → (run h (client buffer) s).result ≡ halted undefined
  unfolding client
  client-unterminated e a b =
      let (sock, s1) = h socket s in
      let (c, s2) = h (connect sock.ret port) s1 in
      let got = (h (read sock.ret 1023) s2).0.text in
      let t : c_string (overlay got buffer) ≡ none =
        c_string-none (overlay got buffer)
          (All-append (λ x. 0 < x) got (drop (length got) buffer) a b) in
      rw e (rw t refl)
