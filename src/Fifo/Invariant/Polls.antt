-- ===== src/Fifo/Invariant/Polls.antt =====
-- A poll and an advance of the tail keep the invariant.
use m_kernel.Prelude.{
  ℕ, ◌+◌, ◌^◌, ◌≤◌, ◌<◌, ◌≡◌, refl, ◌∙◌, ℕ_discrete, dec_lt, arith, true, false, some, update,
  update_ne, u64, inl, inr, Bool-cases, ==_refl, List, Option, none, suc,
}
use m_kernel.Types.{CmdType, TransferCmd, is_empty}
use m_kernel.Fifo.{poll, Fifo, slot_index, advance_tail}
use m_kernel.Fifo.Words.{slot_index-add, capacity_pos}
use m_kernel.Fifo.System.{System}
use m_kernel.Fifo.Invariant.Defs.{claimed, Owned, Ready, Inv}
use m_kernel.Fifo.Invariant.Places.{IsFresh-mono, apart}

module _ {s : System} (inv : Inv s) where
  pub advance-Inv :
      (t : ℕ) → s.mem.tail ≤ t → t ≤ s.mem.cpu_head → Inv (record s { mem = advance_tail s.mem t })
  advance-Inv t h le = record {
    pow = inv.pow;
    heads = inv.heads;
    cached = omega (arith, inv.cached);
    tails = le;
    reads = inv.reads;
    window = omega (arith, inv.window);
    owner = λ j c k q. ground (arith, inv.owner j c k q);
    unique = inv.unique;
    fresh = λ j.
        IsFresh-mono s.mem (advance_tail s.mem t) (s.pc j) h refl (λ c k q room. refl)
          (inv.fresh j);
    ready = λ k a d. ground (arith, inv.ready k a d);
    vacant = inv.vacant;
    past = inv.past;
    covered = inv.covered;
  }

  abbrev oldest : TransferCmd
  oldest = s.mem.triggers (slot_index s.mem.capacity s.mem.cpu_head)

  -- A record that is there for the poll is a committed command.
  pub oldest-Ready : is_empty oldest.cmd_type ≡ false → Ready s s.mem.cpu_head
  oldest-Ready full = elim (Bool-cases (s.done s.mem.cpu_head)) [
    | inl d ↦ inv.ready s.mem.cpu_head (omega arith) d
    | inr d ↦
        let v : is_empty oldest.cmd_type ≡ true =
          inv.vacant s.mem.cpu_head (omega arith) (omega (arith, capacity_pos inv.pow)) d in
        cc
  ]

  module _ (full : is_empty oldest.cmd_type ≡ false) (wide : s.pushes < 2 ^ 64) where
    abbrev polled : System
    polled = record s {
      mem = record s.mem {
        triggers =
            update s.mem.triggers (slot_index s.mem.capacity s.mem.cpu_head)
              (record oldest { cmd_type = CmdType.empty });
        cpu_head = u64 (s.mem.cpu_head + 1);
      };
    }

    taken : Ready s s.mem.cpu_head
    taken = oldest-Ready full

    next_head : polled.mem.cpu_head ≡ s.mem.cpu_head + 1
    next_head = omega (arith, taken.below, inv.heads)

    left_alone :
        (k : ℕ)
        → s.mem.cpu_head < k
        → k < s.mem.cpu_head + s.mem.capacity
        → polled.mem.triggers (slot_index s.mem.capacity k)
          ≡ s.mem.triggers (slot_index s.mem.capacity k)
    left_alone k h w = update_ne s.mem.triggers _ _ _ (
        apart inv s.mem.cpu_head k (omega arith) (omega arith) (omega (arith, capacity_pos inv.pow))
          w (omega arith))

    -- The claim of a thread is above the slot that is polled.
    still :
        (j : ℕ) (cmd : TransferCmd) (k : ℕ) → claimed (s.pc j) ≡ some (cmd, k) → s.mem.cpu_head < k
    still j cmd k q = elim (ℕ_discrete s.mem.cpu_head k) [
      | yes e ↦
          let o : Owned s cmd k = inv.owner j cmd k q in
          let v : is_empty oldest.cmd_type ≡ true =
            inv.vacant s.mem.cpu_head (omega arith) (omega (arith, capacity_pos inv.pow))
              (rw e o.undone) in
          absurd (cc)
      | no ne ↦ omega (arith, (inv.owner j cmd k q).unread)
    ]

    polled-vacant :
        (k : ℕ)
        → polled.mem.cpu_head ≤ k
        → k < polled.mem.cpu_head + s.mem.capacity
        → s.done k ≡ false
        → is_empty (polled.mem.triggers (slot_index s.mem.capacity k)).cmd_type ≡ true
    polled-vacant k h w d = elim (dec_lt k (s.mem.cpu_head + s.mem.capacity)) [
      | yes lt ↦
          rw (left_alone k (omega (arith, next_head)) lt)
            (inv.vacant k (omega (arith, next_head)) lt d)
      | no ge ↦
          let e : k ≡ s.mem.cpu_head + s.mem.capacity = omega (arith, next_head) in
          rw (e, slot_index-add s.mem.cpu_head inv.pow, ==_refl) refl
    ]

    pub polled-Inv : Inv polled
    polled-Inv = record {
      pow = inv.pow;
      heads = inv.heads;
      cached = inv.cached;
      tails = omega (arith, next_head, inv.tails);
      reads = omega (arith, next_head, taken.below);
      window = omega (arith, next_head, taken.within);
      owner = λ j c k q. ground (arith, inv.owner j c k q, still j c k q, next_head);
      unique = inv.unique;
      fresh = λ j.
          IsFresh-mono s.mem polled.mem (s.pc j) (omega arith) refl
            (λ c k q room. left_alone k (still j c k q) (omega (arith, inv.tails))) (inv.fresh j);
      ready = λ k h d.
          let old : Ready s k = inv.ready k (omega (arith, next_head)) d in
          record {
            below = old.below;
            within = old.within;
            whole =
                left_alone k (omega (arith, next_head)) (omega (arith, old.within, inv.tails))
                ∙ old.whole;
            real = old.real;
          };
      vacant = polled-vacant;
      past = inv.past;
      covered = λ k h lt d. inv.covered k (omega (arith, next_head)) lt d;
    }

  -- The record of what polls returned is no part of the invariant.
  pub got-Inv : (got : List TransferCmd) → Inv (record s { got = got })
  got-Inv got = record {
    pow = inv.pow;
    heads = inv.heads;
    cached = inv.cached;
    tails = inv.tails;
    reads = inv.reads;
    window = inv.window;
    owner = λ j c k q. ground (arith, inv.owner j c k q);
    unique = inv.unique;
    fresh = inv.fresh;
    ready = λ k h d. ground (arith, inv.ready k h d);
    vacant = inv.vacant;
    past = inv.past;
    covered = inv.covered;
  }

  pub poll-Inv : s.pushes < 2 ^ 64 → Inv (record s { mem = (poll s.mem).1 })
  unfolding poll
  poll-Inv wide = elim (Bool-cases (is_empty oldest.cmd_type)) [
    | inl e ↦ rw e inv
    | inr e ↦ rw e (polled-Inv e wide)
  ]

-- What a poll does: nothing, or it takes the command that the next slot was claimed for.
pub data Polled (s : System) : Option TransferCmd × Fifo → Type 0 where
  nothing :
      is_empty (s.mem.triggers (slot_index s.mem.capacity s.mem.cpu_head)).cmd_type ≡ true
      → Polled s (none, s.mem)
  taken_one :
      {m : Fifo} {cmd : TransferCmd}
      → Ready s s.mem.cpu_head
      → cmd ≡ s.log s.mem.cpu_head
      → m.cpu_head ≡ suc s.mem.cpu_head
      → Polled s (some cmd, m)

pub poll-Polled : {s : System} → Inv s → s.pushes < 2 ^ 64 → Polled s (poll s.mem)
unfolding poll
poll-Polled inv wide = elim (Bool-cases (is_empty (oldest inv).cmd_type)) [
  | inl e ↦ rw e (nothing e)
  | inr e ↦ rw e (
      taken_one (oldest-Ready inv e) (oldest-Ready inv e).whole
        (omega (arith, inv.heads, (oldest-Ready inv e).below)))
]
