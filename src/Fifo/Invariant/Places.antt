-- ===== src/Fifo/Invariant/Places.antt =====
-- What the places of the threads say of the slots.
use m_kernel.Prelude.{ℕ, ◌+◌, ◌≤◌, ◌<◌, ◌≡◌, ◌≢◌, refl, sym, dec_lt, arith, some}
use m_kernel.Types.{TransferCmd}
use m_kernel.Fifo.{Fifo, slot_index}
use m_kernel.Fifo.Words.{slot_index-ne}
use m_kernel.Fifo.System.{Pc, idle, check, spin, refresh, write, commit, System}
use m_kernel.Fifo.Invariant.Defs.{claimed, IsFresh, Inv}

-- A thread's place stays true when the tail grows and its own slot is left alone.
pub IsFresh-mono :
    (m m' : Fifo) (p : Pc)
    → m.tail ≤ m'.tail
    → m'.capacity ≡ m.capacity
    → ((cmd : TransferCmd) (slot : ℕ)
        → claimed p ≡ some (cmd, slot)
        → slot < m.tail + m.capacity
        → m'.triggers (slot_index m.capacity slot) ≡ m.triggers (slot_index m.capacity slot))
    → IsFresh m p
    → IsFresh m' p
IsFresh-mono m m' idle h e same f = tt
IsFresh-mono m m' (check cmd slot) h e same f = tt
IsFresh-mono m m' (spin cmd slot) h e same f = tt
IsFresh-mono m m' (refresh cmd slot t) h e same f = omega arith
IsFresh-mono m m' (write cmd slot wi) h e same f =
    (omega arith, f.1, f.2, rw (e, same cmd slot refl f.0) f.3)
IsFresh-mono m m' (commit cmd slot) h e same f = (omega arith, rw (e, same cmd slot refl f.0) f.1)

module _ {s : System} (inv : Inv s) where
  -- Two slots that are both above `cpu_head` and below the reusable end share no index.
  pub apart :
      (a b : ℕ)
      → s.mem.cpu_head ≤ a
      → s.mem.cpu_head ≤ b
      → a < s.mem.cpu_head + s.mem.capacity
      → b < s.mem.cpu_head + s.mem.capacity
      → a ≢ b
      → slot_index s.mem.capacity a ≢ slot_index s.mem.capacity b
  apart a b ha hb na nb ne e = elim (dec_lt a b) [
    | yes lt ↦ slot_index-ne a b inv.pow lt (omega arith) e
    | no ge ↦ slot_index-ne b a inv.pow (omega arith) (omega arith) (sym e)
  ]
