-- ===== src/Ipc/Tcp/Both.antt =====
-- The socket programs at the same time, under every schedule.
use linux_system_programming.Prelude.{
  ℕ, ◌≤◌, ℤ, pos, minus_one, Bool, true, false, ◌&&◌, ◌||◌, not, ◌==◌, List, [], ◌∷◌, ◌++◌, Option,
  none, some, if◌then◌else◌, same_ℤ, take, drop, ◌≡◌, refl, arith,
}
use linux_system_programming.Sys.{Reply}
use linux_system_programming.Libc.{codes, c_string, same_text}
use linux_system_programming.Pair.{
  Shared, Pair, step, Schedule, explore, explore_sound, succeeded, exits, texts, same_texts,
}
use linux_system_programming.Ipc.Tcp.{
  Call, socket, connect, bind, listen, accept, read, write, close, server, client,
}

-- The port that the server's socket is bound to, whether it listens, whether a client has connected
-- or has tried to before the server listened (`early`), the bytes on their way to it, and whether the
-- server has closed the connection.
pub record Link : Type 0 where
  pub bound : Option ℕ
  pub listening : Bool
  pub connected : Bool
  pub early : Bool
  pub wire : List ℕ
  pub closed : Bool

-- Somebody listens at a port.
abbrev listens_at : ℕ → Option ℕ → Bool → Bool
listens_at port (some p) true = p == port
listens_at port _ _ = false

abbrev value : ℤ → Reply
value n = record { ret = n; errno = 0; text = [] }

-- A read of an empty connection waits until the other side closes it.
abbrev arriving : ℕ → Link → List ℕ → Option (Reply × Link)
arriving size l [] = if l.closed then some (value (pos 0), l) else none
arriving size l (c ∷ cs) = some (
  record { ret = pos 1; errno = 0; text = take size (c ∷ cs) },
  record l { wire = drop size (c ∷ cs) },
)

-- accept waits for a client on a socket that listens, and fails on any other.
abbrev accepted : Link → Option (Reply × Link)
accepted l =
    if l.connected
    then some (value (pos 4), l)
    else if l.listening
    then none
    else some (value minus_one, l)

-- A call on the socket that it is for, by number: 3 is the one that `socket` gives in either process,
-- 4 the one that accept gives. On any other it fails.
abbrev on_socket : ℕ → ℤ → Link → Reply × Link → Option (Reply × Link)
on_socket n sock l r = some (if same_ℤ sock (pos n) then r else (value minus_one, l))

-- The server is the parent of the pair. A connection is refused until somebody listens at its port,
-- and the server waits in accept until there is one.
unfoldable pub link : Shared Call Reply Link
link who other socket l = some (value (pos 3), l)
link who other (connect sock port) l = on_socket 3 sock l (
    if listens_at port l.bound l.listening
    then (value (pos 0), record l { connected = true })
    else (value minus_one, record l { early = not l.listening }))
link who other (bind sock port) l =
    on_socket 3 sock l (value (pos 0), record l { bound = some port })
link who other (listen sock backlog) l =
    on_socket 3 sock l (value (pos 0), record l { listening = true })
link who other (accept sock) l =
    if same_ℤ sock (pos 3) then accepted l else some (value minus_one, l)
link who other (read sock size) l =
    if same_ℤ sock (pos 3) then arriving size l l.wire else some (value minus_one, l)
link who other (write sock bytes) l =
    on_socket 4 sock l (value (pos 27), record l { wire = l.wire ++ bytes })
link true other (close sock) l =
    some (value (pos 0), record l { closed = l.closed || same_ℤ sock (pos 4) })
link false other (close sock) l = some (value (pos 0), l)

abbrev pub started : List ℕ → Pair Call Reply Link
started buffer = record {
  parent = server;
  child = client buffer;
  shared = record {
    bound = none;
    listening = false;
    connected = false;
    early = false;
    wire = [];
    closed = false;
  };
  parent_out = [];
  child_out = [];
}

abbrev pub hello : List ℕ
hello = codes "Hello, Socket Programming!"

abbrev greeted : Pair Call Reply Link → Bool
greeted s = succeeded s.parent && (succeeded s.child && same_texts (texts s.child_out) (hello ∷ []))

abbrev waits_on : Pair Call Reply Link → Bool
waits_on s =
    exits minus_one s.child && (s.shared.early && (s.shared.listening && not s.shared.connected))

abbrev good : Pair Call Reply Link → Bool
good s = greeted s || waits_on s

explored : (buffer : List ℕ) → explore link 13 good (started buffer) ≡ true
unfolding explore step link server client c_string same_text
explored buffer = refl

-- Under every schedule of the two programs at most twelve steps are made.
pub Schedule-bounded :
    (buffer : List ℕ) {m : ℕ} {t : Pair Call Reply Link}
    → Schedule link (started buffer) m t
    → m ≤ 12
Schedule-bounded buffer r =
    let (l, _) = explore_sound link 13 good (started buffer) (explored buffer) r in omega arith
