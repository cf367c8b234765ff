-- ===== src/Ipc/Fifo/Start.antt =====
-- The FIFO programs in front of their loops, at the same time: one FIFO is made.
use linux_system_programming.Prelude.{
  ℕ, pos, Bool, true, false, ◌&&◌, ◌||◌, [], none, ◌≡◌, refl, ◌⊎◌, inl, inr,
}
use linux_system_programming.Sys.{Prog, ret, halt, print, call, exited, Reply}
use linux_system_programming.Pair.{
  Pair, Schedule, step, explore, explore_sound, and_both, or_cases, exits, exits-≡,
}
use linux_system_programming.Ipc.Fifo.{Call, create_fifo}
use linux_system_programming.Ipc.Fifo.Channel.{Channel, channel}

abbrev pub starting : Bool → Pair Call Reply Channel
starting there = record {
  parent = create_fifo;
  child = create_fifo;
  shared = record {
    exists = there;
    bytes = none;
    w_writes = false;
    w_reads = false;
    w_met = false;
    w_typed = [];
    r_writes = false;
    r_reads = false;
    r_met = false;
    r_typed = [];
  };
  parent_out = [];
  child_out = [];
}

abbrev goes_on : Prog Call Reply (Unit {0}) → Bool
goes_on (ret tt) = true
goes_on _ = false

goes_on-≡ : (p : Prog Call Reply (Unit {0})) → goes_on p ≡ true → p ≡ ret tt
goes_on-≡ (ret tt) h = refl
goes_on-≡ (halt e) h = cc
goes_on-≡ (print l p) h = cc
goes_on-≡ (call c k) h = cc

-- Both go on; or one fails, and that only where there was no FIFO at first.
abbrev pub Started : Bool → Pair Call Reply Channel → Type 0
Started there s =
    (s.shared.exists ≡ true)
    × (((s.parent ≡ ret tt) × (s.child ≡ ret tt))
        ⊎ ((there ≡ false)
            × (((s.parent ≡ ret tt) × (s.child ≡ halt (exited (pos 1))))
                ⊎ ((s.parent ≡ halt (exited (pos 1))) × (s.child ≡ ret tt)))))

abbrev good : Bool → Pair Call Reply Channel → Bool
good true s = s.shared.exists && (goes_on s.parent && goes_on s.child)
good false s =
    s.shared.exists
    && ((goes_on s.parent && goes_on s.child)
        || ((goes_on s.parent && exits (pos 1) s.child)
            || (exits (pos 1) s.parent && goes_on s.child)))

good-Started : (there : Bool) (s : Pair Call Reply Channel) → good there s ≡ true → Started there s
good-Started true s h =
    let (x, h1) = and_both s.shared.exists _ h in
    let (p, c) = and_both (goes_on s.parent) (goes_on s.child) h1 in
    (x, inl (goes_on-≡ s.parent p, goes_on-≡ s.child c))
good-Started false s h =
    let (x, h1) = and_both s.shared.exists _ h in
    elim (or_cases (goes_on s.parent && goes_on s.child) _ h1) [
      | inl a ↦
          let (p, c) = and_both (goes_on s.parent) (goes_on s.child) a in
          (x, inl (goes_on-≡ s.parent p, goes_on-≡ s.child c))
      | inr b ↦
          elim (or_cases (goes_on s.parent && exits (pos 1) s.child)
            (exits (pos 1) s.parent && goes_on s.child) b) [
              | inl a ↦
                  let (p, c) = and_both (goes_on s.parent) (exits (pos 1) s.child) a in
                  (x, inr (refl, inl (goes_on-≡ s.parent p, exits-≡ (pos 1) s.child c)))
              | inr a ↦
                  let (p, c) = and_both (exits (pos 1) s.parent) (goes_on s.child) a in
                  (x, inr (refl, inr (exits-≡ (pos 1) s.parent p, goes_on-≡ s.child c)))
            ]
    ]

explored : (there : Bool) → explore channel 8 (good there) (starting there) ≡ true
unfolding explore step channel create_fifo
explored true = refl
explored false = refl

-- Under every schedule of the two programs in front of their loops, where neither can move, the FIFO
-- exists, and both programs go on; or there was none at first, and one of them goes on while the
-- other one's mkfifo came too late and it has exited with 1.
pub Schedule-creates :
    (there : Bool) {m : ℕ} {t : Pair Call Reply Channel}
    → Schedule channel (starting there) m t
    → step channel true t ≡ none
    → step channel false t ≡ none
    → Started there t
Schedule-creates there {t = t} r a b =
    let (_, g) = explore_sound channel 8 (good there) (starting there) (explored there) r in
    good-Started there t (g a b)
