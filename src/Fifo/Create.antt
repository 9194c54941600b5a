-- ===== src/Fifo/Create.antt =====
-- `create_d2h_fifo` accepts the powers of two, and nothing else.
use m_kernel.Prelude.{bit_and_pred-IsPow2, IsPow2-bit_and_pred, ℕ, ◌≡◌, arith, IsPow2, some}
use native.Mathlib.Nat.{one-le-pow}
use m_kernel.Fifo.{Fifo, create_d2h_fifo}
use m_kernel.Types.{zero_cmd}

-- The ring of a creation that succeeds.
abbrev pub fresh_fifo : ℕ → Fifo
fresh_fifo capacity = record {
  triggers = λ _. zero_cmd;
  head = 0;
  tail = 0;
  tail_cache = 0;
  capacity = capacity;
  cpu_head = 0;
}

-- A ring is created exactly for the capacities that are powers of two, and it is then empty, with
-- all its counters at 0.
pub create_d2h_fifo-iff-IsPow2 :
    (capacity : ℕ)
    → (IsPow2 capacity → create_d2h_fifo capacity ≡ some (fresh_fifo capacity))
      × ((m : Fifo)
          → create_d2h_fifo capacity ≡ some m
          → IsPow2 capacity × (m ≡ fresh_fifo capacity))
unfolding create_d2h_fifo
create_d2h_fifo-iff-IsPow2 capacity = (
  λ (k, e). ground (arith, one-le-pow k 2, IsPow2-bit_and_pred k capacity e),
  λ m e. (
    bit_and_pred-IsPow2 capacity capacity (omega arith) (ground arith) (ground arith),
    ground arith,
  ),
)
