-- ===== src/Fifo/System.antt =====
-- GPU threads in `D2HFifoDevice::push`, one shared access at a time, interleaved with the polls and
-- tail updates of the proxy thread. A release store is seen with all that went before it.
use m_kernel.Prelude.{
  List, [], ◌∷◌, ◌++◌, Option, none, some, ℕ, ◌+◌, ◌≤◌, ◌<◌, ◌≡◌, update, u64, Bool, true, false,
}
use m_kernel.Types.{TransferCmd, is_empty}
use m_kernel.Fifo.{Fifo, store_word, poll, advance_tail, cmd_words}

-- Where a thread stands in `push`, with the locals that are live there.
pub data Pc : Type 0 where
  idle : Pc
  check : (cmd : TransferCmd) (slot : ℕ) → Pc  -- claimed; before the test against `*tail_cache`
  spin : (cmd : TransferCmd) (slot : ℕ) → Pc  -- head of the `do` loop
  refresh : (cmd : TransferCmd) (slot t : ℕ) → Pc  -- `t` loaded; before `*tail_cache = t`
  write : (cmd : TransferCmd) (slot wi : ℕ) → Pc  -- before the store of word `wi`
  commit : (cmd : TransferCmd) (slot : ℕ) → Pc  -- before the release store of word 0

-- `log` and `done` record, for the proofs, the command that each slot number was claimed for and
-- whether it is committed; `pushes` counts the claims, and `got` the commands that polls returned.
pub record System : Type 0 where
  pub mem : Fifo
  pub pc : ℕ → Pc
  pub log : ℕ → TransferCmd
  pub done : ℕ → Bool
  pub pushes : ℕ
  pub got : List TransferCmd

-- What a poll adds to `got`.
abbrev pub returned : Option TransferCmd → List TransferCmd
returned none = []
returned (some cmd) = cmd ∷ []

-- One step of thread `i`, which stands at `p`: the memory and the place that it leaves.
pub data Move (m : Fifo) : Pc → Fifo → Pc → Type 0 where
  room :
      {cmd : TransferCmd} {slot : ℕ}
      → slot < u64 (m.capacity + m.tail_cache)
      → Move m (check cmd slot) m (write cmd slot 1)
  no_room :
      {cmd : TransferCmd} {slot : ℕ}
      → u64 (m.capacity + m.tail_cache) ≤ slot
      → Move m (check cmd slot) m (spin cmd slot)
  load_tail : {cmd : TransferCmd} {slot : ℕ} → Move m (spin cmd slot) m (refresh cmd slot m.tail)
  cache_room :
      {cmd : TransferCmd} {slot t : ℕ}
      → slot < u64 (m.capacity + t)
      → Move m (refresh cmd slot t) (record m { tail_cache = t }) (write cmd slot 1)
  cache_wait :
      {cmd : TransferCmd} {slot t : ℕ}
      → u64 (m.capacity + t) ≤ slot
      → Move m (refresh cmd slot t) (record m { tail_cache = t }) (spin cmd slot)
  store :
      {cmd : TransferCmd} {slot wi : ℕ}
      → wi < cmd_words
      → Move m (write cmd slot wi) (store_word m slot cmd wi) (write cmd slot (wi + 1))
  stored :
      {cmd : TransferCmd} {slot wi : ℕ}
      → wi ≡ cmd_words
      → Move m (write cmd slot wi) m (commit cmd slot)

pub data Step (s : System) : System → Type 0 where
  -- `atomicAdd(head, 1)`, by a thread that pushes a real command
  claim :
      (i : ℕ) (cmd : TransferCmd)
      → s.pc i ≡ idle
      → is_empty cmd.cmd_type ≡ false
      → Step s (record s {
        mem = record s.mem { head = u64 (s.mem.head + 1) };
        pc = update s.pc i (check cmd s.mem.head);
        log = update s.log s.mem.head cmd;
        pushes = s.pushes + 1;
      })
  move :
      (i : ℕ) {m : Fifo} {p : Pc}
      → Move s.mem (s.pc i) m p
      → Step s (record s { mem = m; pc = update s.pc i p })
  release :
      (i : ℕ) (cmd : TransferCmd) (slot : ℕ)
      → s.pc i ≡ commit cmd slot
      → Step s (record s {
        mem = store_word s.mem slot cmd 0;
        pc = update s.pc i idle;
        done = update s.done slot true;
      })
  polls : Step s (record s { mem = (poll s.mem).1; got = s.got ++ returned (poll s.mem).0 })
  -- The proxy passes on a value that `cpu_head` has had.
  advance :
      (t : ℕ)
      → s.mem.tail ≤ t
      → t ≤ s.mem.cpu_head
      → Step s (record s { mem = advance_tail s.mem t })
