-- ===== src/Fifo/Invariant/Defs.antt =====
-- The invariant of the ring. A slot number is a claim of `push`; `slot_index` is where it lives.
use m_kernel.Prelude.{ℕ, ◌+◌, ◌≤◌, ◌<◌, ◌≡◌, IsPow2, true, false, Option, none, some}
use m_kernel.Types.{TransferCmd, is_empty}
use m_kernel.Fifo.{Fifo, slot_index}
use m_kernel.Fifo.Words.{Stored}
use m_kernel.Fifo.System.{Pc, idle, check, spin, refresh, write, commit, System}

-- The command and the slot that a thread is pushing.
abbrev pub claimed : Pc → Option (TransferCmd × ℕ)
claimed idle = none
claimed (check cmd slot) = some (cmd, slot)
claimed (spin cmd slot) = some (cmd, slot)
claimed (refresh cmd slot t) = some (cmd, slot)
claimed (write cmd slot wi) = some (cmd, slot)
claimed (commit cmd slot) = some (cmd, slot)

-- What a thread's place says about the memory.
abbrev pub IsFresh : Fifo → Pc → Type 0
IsFresh m idle = Unit
IsFresh m (check cmd slot) = Unit
IsFresh m (spin cmd slot) = Unit
IsFresh m (refresh cmd slot t) = t ≤ m.tail
IsFresh m (write cmd slot wi) =
    (slot < m.tail + m.capacity)
    × (0 < wi)
    × (wi ≤ 6)
    × Stored wi cmd (m.triggers (slot_index m.capacity slot))
IsFresh m (commit cmd slot) =
    (slot < m.tail + m.capacity) × Stored 6 cmd (m.triggers (slot_index m.capacity slot))

-- A slot that is claimed by a thread which has not committed it.
pub record Owned (s : System) (cmd : TransferCmd) (slot : ℕ) : Type 0 where
  pub unread : s.mem.cpu_head ≤ slot
  pub below : slot < s.mem.head
  pub logged : s.log slot ≡ cmd
  pub undone : s.done slot ≡ false
  pub real : is_empty cmd.cmd_type ≡ false

-- A slot that is committed and not yet polled.
pub record Ready (s : System) (slot : ℕ) : Type 0 where
  pub below : slot < s.mem.head
  pub within : slot < s.mem.tail + s.mem.capacity
  pub whole : s.mem.triggers (slot_index s.mem.capacity slot) ≡ s.log slot
  pub real : is_empty (s.log slot).cmd_type ≡ false

pub record Inv (s : System) : Type 0 where
  pub pow : IsPow2 s.mem.capacity
  pub heads : s.mem.head ≡ s.pushes
  pub cached : s.mem.tail_cache ≤ s.mem.tail
  pub tails : s.mem.tail ≤ s.mem.cpu_head
  pub reads : s.mem.cpu_head ≤ s.mem.head
  pub window : s.mem.cpu_head ≤ s.mem.tail + s.mem.capacity
  pub owner :
      (i : ℕ) (cmd : TransferCmd) (slot : ℕ)
      → claimed (s.pc i) ≡ some (cmd, slot)
      → Owned s cmd slot
  pub unique :
      (i j : ℕ) (c d : TransferCmd) (slot : ℕ)
      → claimed (s.pc i) ≡ some (c, slot)
      → claimed (s.pc j) ≡ some (d, slot)
      → i ≡ j
  pub fresh : (i : ℕ) → IsFresh s.mem (s.pc i)
  pub ready : (slot : ℕ) → s.mem.cpu_head ≤ slot → s.done slot ≡ true → Ready s slot
  pub vacant :
      (slot : ℕ)
      → s.mem.cpu_head ≤ slot
      → slot < s.mem.cpu_head + s.mem.capacity
      → s.done slot ≡ false
      → is_empty (s.mem.triggers (slot_index s.mem.capacity slot)).cmd_type ≡ true
  pub past : (slot : ℕ) → s.done slot ≡ true → slot < s.mem.head
  pub covered :
      (slot : ℕ)
      → s.mem.cpu_head ≤ slot
      → slot < s.mem.head
      → s.done slot ≡ false
      → (i : ℕ) × (claimed (s.pc i) ≡ some (s.log slot, slot))
