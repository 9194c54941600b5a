-- ===== src/Broker.antt =====
-- include/comm/local_broker.cuh: the barrier between the processes of one node, in memory that they
-- share. Each process does one shared access at a time, in any order with the others.
mod Count
mod Phases
mod Steps
mod Arriving
mod Departing
mod Start
mod Bounds
pub mod Safety
pub mod Progress
mod Tests
use m_kernel.Prelude.{ℕ, suc, ◌+◌, ◌<◌, ◌≡◌, ◌≢◌, Bool, true, false, update, zero}
use m_kernel.Prelude.Int.{ℤ, pos}
use m_kernel.Proxy.{plus, minus}

-- `LocalBrokerVault`, less the data; `init` is `init == INIT_CODE`, and `sense` is `sense != 0`.
pub record Vault : Type 0 where
  pub init : Bool
  pub barrier : ℤ
  pub sense : Bool

-- Where a process stands in `init_sync` or `sync`.
pub data Place : Type 0 where
  boot : Place  -- the leader, before `barrier = 0`
  cleared : Place  -- before `sense = 0`
  zeroed : Place  -- before `init = INIT_CODE`
  wait_init : Place  -- another process, before it has seen `init`
  outside : Place  -- between two calls of `sync`
  checked : Place  -- has seen `init`, before `__sync_add_and_fetch(&barrier, 1)`
  raise : Place  -- before `sense = 1`
  wait_set : Place  -- in the loop of phase 1
  leaving : Place  -- before `__sync_add_and_fetch(&barrier, -1)`
  lower : Place  -- before `sense = 0`
  wait_clear : Place  -- in the loop of phase 2
  failed : Place  -- has thrown

-- One access of a process among `n`; a round of a loop that goes on waiting changes nothing, and is
-- no move.
pub data Access (n : ℕ) (m : Vault) : Place → Vault → Place → Type 0 where
  clear : Access n m boot (record m { barrier = pos 0 }) cleared
  zero_sense : Access n m cleared (record m { sense = false }) zeroed
  publish : Access n m zeroed (record m { init = true }) outside
  see_init : m.init ≡ true → Access n m wait_init m outside
  reject : m.init ≡ false → Access n m outside m failed
  enter : m.init ≡ true → Access n m outside m checked
  arrive_last :
      plus m.barrier 1 ≡ pos n → Access n m checked (record m { barrier = plus m.barrier 1 }) raise
  arrive :
      plus m.barrier 1 ≢ pos n
      → Access n m checked (record m { barrier = plus m.barrier 1 }) wait_set
  set_sense : Access n m raise (record m { sense = true }) wait_set
  pass : m.sense ≡ true → Access n m wait_set m leaving
  depart_last :
      minus m.barrier 1 ≡ pos 0
      → Access n m leaving (record m { barrier = minus m.barrier 1 }) lower
  depart :
      minus m.barrier 1 ≢ pos 0
      → Access n m leaving (record m { barrier = minus m.barrier 1 }) wait_clear
  clear_sense : Access n m lower (record m { sense = false }) wait_clear
  return : m.sense ≡ false → Access n m wait_clear m outside

-- `entered` and `left` count, for the proofs, the calls of `sync` that a process has made and those
-- that have returned.
pub record Node : Type 0 where
  pub vault : Vault
  pub places : ℕ → Place
  pub entered : ℕ → ℕ
  pub left : ℕ → ℕ

-- Whether a move begins or ends a call of `sync`.
abbrev pub begins : Place → Place → ℕ
begins outside checked = 1
begins _ _ = 0

abbrev pub ends : Place → Place → ℕ
ends wait_clear outside = 1
ends _ _ = 0

pub data NodeStep (n : ℕ) (s : Node) : Node → Type 0 where
  by_process :
      (i : ℕ) {m : Vault} {p : Place}
      → i < n
      → Access n s.vault (s.places i) m p
      → NodeStep n s (record {
        vault = m;
        places = update s.places i p;
        entered = update s.entered i (s.entered i + begins (s.places i) p);
        left = update s.left i (s.left i + ends (s.places i) p);
      })

-- The processes as they begin, with any memory that is not marked as initialised; process 0 leads.
abbrev pub first_places : ℕ → Place
first_places i = elim i [ zero ↦ boot | suc _ ↦ wait_init ]

abbrev pub first_node : ℤ → Bool → Node
first_node barrier sense = record {
  vault = record { init = false; barrier = barrier; sense = sense };
  places = first_places;
  entered = λ _. 0;
  left = λ _. 0;
}

pub data Reaches (n : ℕ) (barrier : ℤ) (sense : Bool) : Node → Type 0 where
  begun : Reaches n barrier sense (first_node barrier sense)
  onward : {s t : Node} → Reaches n barrier sense s → NodeStep n s t → Reaches n barrier sense t
