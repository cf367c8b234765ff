-- ===== src/Ipc/Tcp/Tests.antt =====
-- The socket programs: the theorems at concrete networks.
use linux_system_programming.Prelude.{some, ℕ, pos, true, false, arith, List, [], ◌∷◌, ◌≡◌, refl}
use linux_system_programming.Sys.{halt, Reply, str, out, exited, Kernel, run, halted, undefined}
use linux_system_programming.Pair.{Pair}
use linux_system_programming.Ipc.Tcp.Both.{Link}
use linux_system_programming.Libc.{codes}
use linux_system_programming.Ipc.Tcp.{Call, client}
use linux_system_programming.Ipc.Tcp.Laws.{client-unterminated}

abbrev buffer : List ℕ
buffer = b'x' ∷ b'y' ∷ b'z' ∷ []

-- Every call succeeds, and a read brings two bytes of the greeting.
abbrev partial : Kernel Call Reply (Unit {0})
partial c s = (record { ret = pos 3; errno = 0; text = b'H' ∷ b'e' ∷ [] }, s)

client-unterminated_example : (run partial (client buffer) tt).result ≡ halted undefined
client-unterminated_example =
    client-unterminated partial buffer tt refl (omega arith, (omega arith, tt)) (omega arith, tt)

-- The server runs up to accept, then the client connects, and the rest is the server's, then the
-- client's.
abbrev ended : Pair Call Reply Link
ended = record {
  parent = halt (exited (pos 0));
  child = halt (exited (pos 0));
  shared = record {
    bound = some 9000;
    listening = true;
    connected = true;
    early = false;
    wire = [];
    closed = true;
  };
  parent_out = [];
  child_out = out "Message from server: %s\n" (str (codes "Hello, Socket Programming!") ∷ []) ∷ [];
}
