-- ===== src/Fifo/Invariant/Threads.antt =====
-- A step of a thread, its claim and its last store keep the invariant.
use m_kernel.Prelude.{
  ℕ, ◌+◌, ◌^◌, ◌≤◌, ◌<◌, ◌≡◌, ◌≢◌, refl, sym, ap, ◌∙◌, ℕ_discrete, arith, true, false, some, update,
  update_self, update_ne, u64, inl, inr, Bool-cases,
}
use m_kernel.Types.{TransferCmd, is_empty}
use m_kernel.Fifo.{Fifo, slot_index, store_word}
use m_kernel.Fifo.Words.{put_word-whole}
use m_kernel.Fifo.System.{Pc, idle, check, commit, System}
use m_kernel.Fifo.Invariant.Defs.{claimed, IsFresh, Owned, Ready, Inv}
use m_kernel.Fifo.Invariant.Places.{IsFresh-mono, apart}
use m_kernel.Fifo.Invariant.Moves.{Effect}

module _ {s : System} (inv : Inv s) where
  module _ (i : ℕ) {m : Fifo} {p : Pc} (e : Effect s.mem m (s.pc i) p) where
    abbrev moved : System
    moved = record s { mem = m; pc = update s.pc i p }

    claims : (j : ℕ) → claimed (moved.pc j) ≡ claimed (s.pc j)
    claims j = ground (arith, e.same_claim)

    move-Owned : (cmd : TransferCmd) (slot : ℕ) → Owned s cmd slot → Owned moved cmd slot
    move-Owned cmd slot o = ground (arith, e.same_head, e.same_cpu)

    -- A slot other than the mover's keeps its record.
    kept :
        (slot : ℕ)
        → s.mem.cpu_head ≤ slot
        → slot < s.mem.cpu_head + s.mem.capacity
        → ((cmd : TransferCmd) → claimed (s.pc i) ≢ some (cmd, slot))
        → m.triggers (slot_index s.mem.capacity slot)
          ≡ s.mem.triggers (slot_index s.mem.capacity slot)
    kept slot h w ne = elim (e.others (slot_index s.mem.capacity slot)) [
      | inl same ↦ same
      | inr (cmd, k, c, room, idx) ↦ absurd (
          apart inv slot k h (inv.owner i cmd k c).unread w (omega (arith, inv.tails))
            (λ q. ne cmd (rw q c)) idx)
    ]

    move-IsFresh : (j : ℕ) → IsFresh m (moved.pc j)
    move-IsFresh j = elim (ℕ_discrete i j) [
      | yes q ↦ rw (q, update_self s.pc j p) e.own
      | no ne ↦ rw (update_ne s.pc i j p ne) (
          IsFresh-mono s.mem m (s.pc j) (omega (arith, e.same_tail)) e.same_capacity
            (λ cmd slot c room.
              kept slot (inv.owner j cmd slot c).unread (omega (arith, inv.tails))
                (λ d q. ne (inv.unique i j d cmd slot q c)))
            (inv.fresh j))
    ]

    move-Ready : (slot : ℕ) → s.mem.cpu_head ≤ slot → s.done slot ≡ true → Ready moved slot
    move-Ready slot h d = record {
      below = omega (arith, e.same_head, old.below);
      within = omega (arith, e.same_tail, e.same_capacity, old.within);
      whole = rw e.same_capacity (
          kept slot h (omega (arith, inv.tails, old.within))
            (λ cmd q. cc ((inv.owner i cmd slot q).undone))
          ∙ old.whole);
      real = old.real;
    }
      where
        old : Ready s slot
        old = inv.ready slot h d

    pub move-Inv : Inv moved
    move-Inv = record {
      pow = rw e.same_capacity inv.pow;
      heads = omega (arith, e.same_head, inv.heads);
      cached = omega (arith, e.same_tail, e.cached);
      tails = omega (arith, e.same_tail, e.same_cpu, inv.tails);
      reads = omega (arith, e.same_head, e.same_cpu, inv.reads);
      window = omega (arith, e.same_tail, e.same_cpu, e.same_capacity, inv.window);
      owner = λ j c k q. move-Owned c k (inv.owner j c k (sym (claims j) ∙ q));
      unique = λ a b c d k q r. inv.unique a b c d k (sym (claims a) ∙ q) (sym (claims b) ∙ r);
      fresh = move-IsFresh;
      ready = λ k h d. move-Ready k (omega (arith, e.same_cpu)) d;
      vacant = λ k h w d.
          rw (e.same_capacity, e.types)
            (inv.vacant k (omega (arith, e.same_cpu)) (omega (arith, e.same_cpu, e.same_capacity))
              d);
      past = λ k d. omega (arith, e.same_head, inv.past k d);
      covered = λ k h lt d.
          let (j, q) = inv.covered k (omega (arith, e.same_cpu)) (omega (arith, e.same_head)) d in
          (j, claims j ∙ q);
    }

  undone_above : (slot : ℕ) → s.mem.head ≤ slot → s.done slot ≡ false
  undone_above slot h = elim (Bool-cases (s.done slot)) [
    | inl d ↦ absurd (omega (arith, inv.past slot d))
    | inr d ↦ d
  ]

  -- A claim takes the next slot number, which nobody holds.
  pub claim-Inv :
      (i : ℕ) (cmd : TransferCmd)
      → s.pc i ≡ idle
      → is_empty cmd.cmd_type ≡ false
      → s.pushes + 1 < 2 ^ 64
      → Inv (record s {
        mem = record s.mem { head = u64 (s.mem.head + 1) };
        pc = update s.pc i (check cmd s.mem.head);
        log = update s.log s.mem.head cmd;
        pushes = s.pushes + 1;
      })
  claim-Inv i cmd idles real wide = record {
    pow = inv.pow;
    heads = omega (arith, inv.heads);
    cached = inv.cached;
    tails = inv.tails;
    reads = omega (arith, inv.reads, inv.heads);
    window = inv.window;
    owner =
        λ j c k q. ground (arith, inv.owner j c k, undone_above s.mem.head, inv.reads, inv.heads);
    unique =
        λ a b c d k q r. ground (arith, inv.unique a b c d k, inv.owner a c k, inv.owner b d k);
    fresh = λ j. ground (arith, inv.fresh j);
    ready = λ k h d. ground (arith, inv.ready k h d, inv.past k d, inv.heads);
    vacant = inv.vacant;
    past = λ k d. omega (arith, inv.past k d, inv.heads);
    covered = λ k h lt d. elim (ℕ_discrete s.mem.head k) [
      | yes q ↦ (i, ground arith)
      | no ne ↦ let (j, q) = inv.covered k h (omega (arith, inv.heads)) d in (j, ground arith)
    ];
  }

  module _ (i : ℕ) (cmd : TransferCmd) (slot : ℕ) (stands : s.pc i ≡ commit cmd slot) where
    abbrev released : System
    released = record s {
      mem = store_word s.mem slot cmd 0;
      pc = update s.pc i idle;
      done = update s.done slot true;
    }

    own : Owned s cmd slot
    own = inv.owner i cmd slot (ap claimed stands)

    ends : IsFresh s.mem (commit cmd slot)
    ends = rw stands at (inv.fresh i)

    -- The record of any other slot of the window stays.
    untouched :
        (k : ℕ)
        → s.mem.cpu_head ≤ k
        → k < s.mem.cpu_head + s.mem.capacity
        → slot ≢ k
        → released.mem.triggers (slot_index s.mem.capacity k)
          ≡ s.mem.triggers (slot_index s.mem.capacity k)
    untouched k h w ne =
        update_ne s.mem.triggers _ _ _
          (apart inv slot k own.unread h (omega (arith, ends.0, inv.tails)) w ne)

    released-Ready : (k : ℕ) → s.mem.cpu_head ≤ k → released.done k ≡ true → Ready released k
    released-Ready k h d = elim (ℕ_discrete slot k) [
      | yes q ↦ rw (← q) (record {
        below = own.below;
        within = ends.0;
        whole = update_self s.mem.triggers _ _ ∙ put_word-whole cmd _ ends.1 ∙ sym own.logged;
        real = rw own.logged own.real;
      })
      | no ne ↦
          let old : Ready s k = inv.ready k h (sym (update_ne s.done slot k true ne) ∙ d) in
          record {
            below = old.below;
            within = old.within;
            whole = untouched k h (omega (arith, old.within, inv.tails)) ne ∙ old.whole;
            real = old.real;
          }
    ]

    released-IsFresh : (j : ℕ) → IsFresh released.mem (released.pc j)
    released-IsFresh j = elim (ℕ_discrete i j) [
      | yes q ↦ rw (q, update_self s.pc j idle) tt
      | no ne ↦ rw (update_ne s.pc i j idle ne) (
          IsFresh-mono s.mem released.mem (s.pc j) (omega arith) refl
            (λ c k q room.
              untouched k (inv.owner j c k q).unread (omega (arith, inv.tails))
                (λ e. ne (inv.unique i j cmd c k (rw (← e) (ap claimed stands)) q)))
            (inv.fresh j))
    ]

    pub release-Inv : Inv released
    release-Inv = record {
      pow = inv.pow;
      heads = inv.heads;
      cached = inv.cached;
      tails = inv.tails;
      reads = inv.reads;
      window = inv.window;
      owner = λ j c k q. ground (arith, inv.owner j c k, inv.unique i j cmd c slot);
      unique = λ a b c d k q r. ground (arith, inv.unique a b c d k);
      fresh = released-IsFresh;
      ready = released-Ready;
      vacant = λ k h w d. elim (ℕ_discrete slot k) [
        | yes q ↦ ground arith
        | no ne ↦
            rw (untouched k h w ne) (inv.vacant k h w (sym (update_ne s.done slot k true ne) ∙ d))
      ];
      past = λ k d. ground (arith, inv.past k, own);
      covered =
          λ k h lt d. let (j, q) = inv.covered k h lt (ground arith) in (j, ground (arith, own));
    }
