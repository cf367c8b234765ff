-- ===== src/Process/Pipe/Both.antt =====
-- pipe_example.c: the parent and the child at the same time, under every schedule.
use linux_system_programming.Prelude.{
  ℕ, ◌+◌, ◌-◌, ◌≤◌, ℤ, pos, minus_one, pos_part, Bool, true, false, not, ◌&&◌, ◌||◌, List, [], ◌∷◌,
  ◌++◌, ◌==◌, Option, none, some, if◌then◌else◌, take, drop, ◌≡◌, refl, arith,
}
use linux_system_programming.Sys.{halt, End, exited}
use linux_system_programming.Libc.{codes, c_string, same_text}
use linux_system_programming.Pair.{
  Shared, Pair, resume, step, Schedule, explore, explore_sound, succeeded, succeeded-≡, texts,
  same_texts, same_texts-≡, and_both,
}
use linux_system_programming.Process.Pipe.{
  Call, Reply, pipe, fork, close, write, read, wait, parent, child, main,
}

-- The bytes in each pipe, and the descriptors that each process has closed.
pub record Pipes : Type 0 where
  pub first : List ℕ
  pub second : List ℕ
  pub closed_by_parent : List ℕ
  pub closed_by_child : List ℕ

abbrev pub member : ℕ → List ℕ → Bool
member x [] = false
member x (y ∷ ys) = x == y || member x ys

-- The descriptors: 3 and 4 are the ends of the first pipe, 5 and 6 those of the second.
abbrev pub fds : Bool → Reply
fds true = record { ret = pos 0; fd0 = pos 3; fd1 = pos 4; text = [] }
fds false = record { ret = pos 0; fd0 = pos 5; fd1 = pos 6; text = [] }

abbrev value : ℤ → Reply
value n = record { ret = n; fd0 = pos 0; fd1 = pos 0; text = [] }

abbrev gone : Option End → Bool
gone none = false
gone (some _) = true

-- The end `fd` is open in one of the two processes; the exit of a process closes its own.
abbrev is_open : Bool → Option End → ℕ → Pipes → Bool
is_open true other fd p =
    not (member fd p.closed_by_parent) || (not (gone other) && not (member fd p.closed_by_child))
is_open false other fd p =
    not (member fd p.closed_by_child) || (not (gone other) && not (member fd p.closed_by_parent))

abbrev closed_by : Bool → Pipes → List ℕ
closed_by true p = p.closed_by_parent
closed_by false p = p.closed_by_child

abbrev close_fd : Bool → ℕ → Pipes → Pipes
close_fd true fd p = record p { closed_by_parent = fd ∷ p.closed_by_parent }
close_fd false fd p = record p { closed_by_child = fd ∷ p.closed_by_child }

abbrev bytes_of : ℕ → Pipes → List ℕ
bytes_of fd p = if fd == 3 || fd == 4 then p.first else p.second

abbrev with_bytes : ℕ → List ℕ → Pipes → Pipes
with_bytes fd bytes p =
    if fd == 3 || fd == 4 then record p { first = bytes } else record p { second = bytes }

-- A read of an empty pipe waits as long as the other end is open anywhere, and then brings nothing.
abbrev read_pipe : Bool → Option End → ℕ → ℕ → Pipes → List ℕ → Option (Reply × Pipes)
read_pipe who other fd size p [] =
    if is_open who other (fd + 1) p then none else some (value (pos 0), p)
read_pipe who other fd size p (c ∷ cs) = some (
  record { ret = pos 1; fd0 = pos 0; fd1 = pos 0; text = take size (c ∷ cs) },
  with_bytes fd (drop size (c ∷ cs)) p,
)

-- A descriptor that the caller has closed is refused; a write with no reader left fails.
unfoldable pub pipes : Shared Call Reply Pipes
pipes who other pipe p = some (value minus_one, p)
pipes who other fork p = some (value minus_one, p)
pipes who other (close fd) p = some (value (pos 0), close_fd who (pos_part fd) p)
pipes who other (write fd bytes) p =
    if member (pos_part fd) (closed_by who p) || not (is_open who other (pos_part fd - 1) p)
    then some (value minus_one, p)
    else some (value (pos 0), with_bytes (pos_part fd) (bytes_of (pos_part fd) p ++ bytes) p)
pipes who other (read fd size) p =
    if member (pos_part fd) (closed_by who p)
    then some (value minus_one, p)
    else read_pipe who other (pos_part fd) size p (bytes_of (pos_part fd) p)
pipes who none wait p = none
pipes who (some e) wait p = some (value (pos 9), p)

-- `main` behind its two pipes and the fork, in the parent and in the child.
abbrev pub forked : Pair Call Reply Pipes
forked = record {
  parent = resume (fds true ∷ fds false ∷ value (pos 9) ∷ []) main;
  child = resume (fds true ∷ fds false ∷ value (pos 0) ∷ []) main;
  shared = record { first = []; second = []; closed_by_parent = []; closed_by_child = [] };
  parent_out = [];
  child_out = [];
}

abbrev all_closed : List ℕ → Bool
all_closed fds = member 3 fds && member 4 fds && member 5 fds && member 6 fds

abbrev pub question : List ℕ
question = codes "Did you understand?"

abbrev pub reply : List ℕ
reply = codes "OK!"

abbrev good : Pair Call Reply Pipes → Bool
good s =
    succeeded s.parent
    && (succeeded s.child
        && (same_texts (texts s.parent_out) (reply ∷ [])
            && (same_texts (texts s.child_out) (question ∷ [])
                && (all_closed s.shared.closed_by_parent && all_closed s.shared.closed_by_child))))

explored : explore pipes 16 good forked ≡ true
unfolding explore step pipes main parent child c_string same_text
explored = refl

-- Every schedule of the parent and the child is over after at most fifteen steps.
pub Schedule-terminates : {m : ℕ} {t : Pair Call Reply Pipes} → Schedule pipes forked m t → m ≤ 15
Schedule-terminates r = let (l, _) = explore_sound pipes 16 good forked explored r in omega arith

-- Under every schedule there is no deadlock: where neither process can move, both have exited with
-- 0, the child has printed the parent's question and the parent the child's answer, once each.
pub Schedule-delivers :
    {m : ℕ} {t : Pair Call Reply Pipes}
    → Schedule pipes forked m t
    → step pipes true t ≡ none
    → step pipes false t ≡ none
    → (t.parent ≡ halt (exited (pos 0)))
      × (t.child ≡ halt (exited (pos 0)))
      × (texts t.child_out ≡ question ∷ [])
      × (texts t.parent_out ≡ reply ∷ [])
Schedule-delivers {t = t} r a b =
    let (_, g) = explore_sound pipes 16 good forked explored r in
    let (p, g1) = and_both (succeeded t.parent) _ (g a b) in
    let (c, g2) = and_both (succeeded t.child) _ g1 in
    let (o, g3) = and_both (same_texts (texts t.parent_out) (reply ∷ [])) _ g2 in
    let (q, _) = and_both (same_texts (texts t.child_out) (question ∷ [])) _ g3 in
    (
      succeeded-≡ t.parent p,
      succeeded-≡ t.child c,
      same_texts-≡ (texts t.child_out) (question ∷ []) q,
      same_texts-≡ (texts t.parent_out) (reply ∷ []) o,
    )
