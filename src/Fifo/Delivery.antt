-- ===== src/Fifo/Delivery.antt =====
-- What the ring promises: in any interleaving of pushing threads with the proxy, commands come out
-- whole, once each, in the order of their claims.
use m_kernel.Prelude.{
  [], ◌≤◌, ◌≡◌, refl, arith, false, ℕ, ◌<◌, IsPow2, List, update, update_ne, ◌++◌, zero, ◌^◌, ◌∷◌,
  ◌+◌, Option, true, none, ◌∙◌, ◌≢◌, some, append-nil, Bool-cases, ap, inl, inr, ◌⊎◌,
}
use m_kernel.Types.{zero_cmd, TransferCmd, is_empty}
use m_kernel.Fifo.{Fifo, suc, poll, slot_index}
use m_kernel.Fifo.System.{
  Pc, System, Step, claim, move, release, polls, advance, Move, room, returned,
}
use m_kernel.Fifo.Invariant.{
  capacity-poll, Inv, Step-Inv, Polled, poll-Polled, claimed, nothing, taken_one, Owned, Ready,
  IsFresh, apart,
}
use m_kernel.Fifo.Create.{fresh_fifo}
use mathlib.Core.Path.{subst}

-- A new ring, with no thread inside `push`.
abbrev pub initial : Fifo → System
initial m = record {
  mem = m;
  pc = λ _. Pc.idle;
  log = λ _. zero_cmd;
  done = λ _. false;
  pushes = 0;
  got = [];
}

pub data Reach (m : Fifo) : System → Type 0 where
  start : Reach m (initial m)
  next : {s t : System} → Reach m s → Step s t → Reach m t

-- The capacity never changes and the count of pushes never falls.
record Grows (s t : System) : Type 0 where
  same_capacity : t.mem.capacity ≡ s.mem.capacity
  more_pushes : s.pushes ≤ t.pushes

Move-capacity : {m m' : Fifo} {p p' : Pc} → Move m p m' p' → m'.capacity ≡ m.capacity
Move-capacity (room g) = refl
Move-capacity mv = refl

Move-cpu_head : {m m' : Fifo} {p p' : Pc} → Move m p m' p' → m'.cpu_head ≡ m.cpu_head
Move-cpu_head (room g) = refl
Move-cpu_head mv = refl

Step-Grows : {s t : System} → Step s t → Grows s t
Step-Grows (claim i cmd e r) = record { same_capacity = refl; more_pushes = omega arith }
Step-Grows (move i mv) = record { same_capacity = Move-capacity mv; more_pushes = omega arith }
Step-Grows (release i cmd slot e) = record { same_capacity = refl; more_pushes = omega arith }
Step-Grows {s} polls = record { same_capacity = capacity-poll s.mem; more_pushes = omega arith }
Step-Grows (advance t h le) = record { same_capacity = refl; more_pushes = omega arith }

create-Inv : {capacity : ℕ} → IsPow2 capacity → Inv (initial (fresh_fifo capacity))
create-Inv pow = record {
  pow = pow;
  heads = refl;
  cached = omega arith;
  tails = omega arith;
  reads = omega arith;
  window = omega arith;
  owner = λ i c k q. cc;
  unique = λ i j c d k q r. cc;
  fresh = λ i. tt;
  ready = λ k h d. cc;
  vacant = λ k h w d. refl;
  past = λ k d. cc;
  covered = λ k h lt d. absurd (omega arith);
}

-- The first `n` commands of a log.
abbrev pub first : ℕ → (ℕ → TransferCmd) → List TransferCmd
first zero log = []
first (suc n) log = first n log ++ (log n ∷ [])

first-update :
    (n k : ℕ) (log : ℕ → TransferCmd) (cmd : TransferCmd)
    → n ≤ k
    → first n (update log k cmd) ≡ first n log
first-update zero k log cmd h = refl
first-update (suc n) k log cmd h =
    rw (first-update n k log cmd (omega arith), update_ne log k n cmd (omega arith)) refl

record Facts (capacity : ℕ) (s : System) : Type 0 where
  inv : Inv s
  same_capacity : s.mem.capacity ≡ capacity
  in_order : s.got ≡ first s.mem.cpu_head s.log

still_in_order :
    (s : System) {r : Option TransferCmd × Fifo}
    → Polled s r
    → s.got ≡ first s.mem.cpu_head s.log
    → s.got ++ returned r.0 ≡ first r.1.cpu_head s.log
still_in_order s (nothing e) g = append-nil s.got ∙ g
still_in_order s (taken_one ready c e) g = rw (e, c, g) refl

-- A poll does not miss a committed command.
Polled-none :
    {s : System} {r : Option TransferCmd × Fifo} → Ready s s.mem.cpu_head → Polled s r → r.0 ≢ none
Polled-none {s} ready (nothing e) q =
    let full : is_empty (s.log s.mem.cpu_head).cmd_type ≡ true = rw (← ready.whole) e in
    let real : is_empty (s.log s.mem.cpu_head).cmd_type ≡ false = ready.real in absurd (cc)
Polled-none ready (taken_one a b c) q = absurd (cc)

Step-in_order :
    {s t : System}
    → Step s t
    → s.pushes < 2 ^ 64
    → Inv s
    → s.got ≡ first s.mem.cpu_head s.log
    → t.got ≡ first t.mem.cpu_head t.log
Step-in_order {s} (claim i cmd e r) wide inv g =
    rw (first-update s.mem.cpu_head s.mem.head s.log cmd inv.reads) g
Step-in_order {s} (move i mv) wide inv g = rw (Move-cpu_head mv) g
Step-in_order (release i cmd slot e) wide inv g = g
Step-in_order {s} polls wide inv g = still_in_order s (poll-Polled inv wide) g
Step-in_order (advance t h le) wide inv g = g

Reach-Facts :
    {capacity : ℕ} {s : System}
    → IsPow2 capacity
    → Reach (fresh_fifo capacity) s
    → s.pushes + capacity < 2 ^ 64
    → Facts capacity s
Reach-Facts pow start wide = record { inv = create-Inv pow; same_capacity = refl; in_order = refl }
Reach-Facts {capacity} pow (next {s} {t} r st) wide =
    let g : Grows s t = Step-Grows st in
    let f : Facts capacity s = Reach-Facts pow r (omega (arith, g.more_pushes)) in
    record {
      inv = Step-Inv st (omega (arith, f.same_capacity)) f.inv;
      same_capacity = g.same_capacity ∙ f.same_capacity;
      in_order = Step-in_order st (omega (arith, g.more_pushes)) f.inv f.in_order;
    }

-- A thread before the store of a word.
abbrev pub IsStoring : Pc → TransferCmd → ℕ → Type 0
IsStoring p cmd slot = ((wi : ℕ) × (p ≡ Pc.write cmd slot wi)) ⊎ (p ≡ Pc.commit cmd slot)

-- It has claimed the slot, and found room.
storing-room :
    (m : Fifo) {p : Pc} {cmd : TransferCmd} {slot : ℕ}
    → IsStoring p cmd slot
    → IsFresh m p
    → (claimed p ≡ some (cmd, slot)) × (slot < m.tail + m.capacity)
storing-room m (inl (wi, stands)) fresh =
    let f : IsFresh m (Pc.write _ _ wi) = subst (IsFresh m) stands fresh in (ap claimed stands, f.0)
storing-room m (inr stands) fresh =
    let f : IsFresh m (Pc.commit _ _) = subst (IsFresh m) stands fresh in (ap claimed stands, f.0)

module _ {capacity : ℕ} {s : System} (pow : IsPow2 capacity) (r : Reach (fresh_fifo capacity) s)
    (wide : s.pushes + capacity < 2 ^ 64) where
  facts : Facts capacity s
  facts = Reach-Facts pow r wide

  -- Whatever the interleaving of the pushing threads with the proxy, while pushes and capacity stay
  -- below 2^64 together: the polls so far have returned exactly the commands of the first
  -- `cpu_head` claims, whole and in the order of the claims, and no more than were claimed.
  pub got-first : (s.got ≡ first s.mem.cpu_head s.log) × (s.mem.cpu_head ≤ s.pushes)
  got-first = (facts.in_order, omega (arith, facts.inv.reads, facts.inv.heads))

  -- A thread that is about to store a word, any of words 1 to 5 or, to commit, word 0, never
  -- stores it over a command that is committed and not yet polled, and its slot lies within one
  -- capacity of the tail.
  pub write_is_safe :
      (i : ℕ) (cmd : TransferCmd) (slot unread : ℕ)
      → IsStoring (s.pc i) cmd slot
      → s.mem.cpu_head ≤ unread
      → s.done unread ≡ true
      → (slot_index s.mem.capacity slot ≢ slot_index s.mem.capacity unread)
        × (slot < s.mem.tail + capacity)
  write_is_safe i cmd slot unread stands h d =
      let (claims, below_end) = storing-room s.mem stands (facts.inv.fresh i) in
      let o : Owned s cmd slot = facts.inv.owner i cmd slot claims in
      let old : Ready s unread = facts.inv.ready unread h d in
      (
        apart facts.inv slot unread o.unread h (omega (arith, facts.inv.tails, below_end))
            (omega (arith, facts.inv.tails, old.within)) (λ q. ground (arith, o.undone)),
        omega (arith, facts.same_capacity, below_end),
      )

  -- If a slot is claimed beyond the proxy's cursor and a poll finds nothing, the command of the
  -- next slot is still in the hands of some thread inside `push`.
  pub empty_poll_is_pending :
      s.mem.cpu_head < s.mem.head
      → (poll s.mem).0 ≡ none
      → (i : ℕ) × (claimed (s.pc i) ≡ some (s.log s.mem.cpu_head, s.mem.cpu_head))
  empty_poll_is_pending h e = elim (Bool-cases (s.done s.mem.cpu_head)) [
    | inl d ↦ absurd (
        Polled-none (facts.inv.ready s.mem.cpu_head (omega arith) d)
          (poll-Polled facts.inv (omega arith)) e)
    | inr d ↦ facts.inv.covered s.mem.cpu_head (omega arith) h d
  ]
