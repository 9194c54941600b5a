-- ===== src/ReadyQueue.antt =====
-- include/comm/internode/ready_queue.cuh: the ring of work identifiers from the receiving proxy to
-- the GPU, seen from its producer.
mod Batch
mod Create
mod Tests
use m_kernel.Prelude.{
  ℕ, suc, ◌+◌, ◌-◌, bit_and, u32, update, List, [], ◌∷◌, length, if◌then◌else◌, ◌==◌, ◌^◌,
}
use m_kernel.Prelude.{smear}

-- `ReadyQueueHost` with the memory it points to, and what the device has of its own.
pub record ReadyQueue : Type 0 where
  pub entries : ℕ → ℕ
  pub tail : ℕ  -- what the GPU reads, uint32_t
  pub local_tail : ℕ  -- uint32_t
  pub capacity : ℕ
  pub head : ℕ
  pub total : ℕ

abbrev pub slot_of : ℕ → ℕ → ℕ
slot_of capacity place = bit_and place (capacity - 1)

-- `create_ready_queue`, in memory that is set to 0.
unfoldable pub create_ready_queue : ℕ → ReadyQueue
create_ready_queue capacity =
    let asked : ℕ = if capacity == 0 then 256 else capacity in
    let rounded : ℕ =
      if bit_and asked (u32 (asked + 2 ^ 32 - 1)) == 0
      then asked
      else u32 (smear (asked - 1) + 1) in
    record { entries = λ _. 0; tail = 0; local_tail = 0; capacity = rounded; head = 0; total = 0 }

-- `ready_queue_push`
unfoldable pub push : ReadyQueue → ℕ → ReadyQueue
push rq work_id = record rq {
  entries = update rq.entries (slot_of rq.capacity rq.local_tail) work_id;
  tail = u32 (rq.local_tail + 1);
  local_tail = u32 (rq.local_tail + 1);
}

-- The loop of `ready_queue_push_batch` from the index `i` on.
unfoldable pub write_batch : ℕ → ℕ → List ℕ → ℕ → (ℕ → ℕ) → ℕ → ℕ
write_batch capacity local_tail [] i entries = entries
write_batch capacity local_tail (w ∷ work_ids) i entries =
    write_batch capacity local_tail work_ids (i + 1)
      (update entries (slot_of capacity (u32 (local_tail + i))) w)

-- `ready_queue_push_batch`, for a count that is the length of `work_ids`
unfoldable pub push_batch : ReadyQueue → List ℕ → ReadyQueue
push_batch rq work_ids = record rq {
  entries = write_batch rq.capacity rq.local_tail work_ids 0 rq.entries;
  tail = u32 (rq.local_tail + length work_ids);
  local_tail = u32 (rq.local_tail + length work_ids);
}

-- `reset_ready_queue`
unfoldable pub reset : ReadyQueue → ReadyQueue
reset rq = record rq { entries = λ _. 0; tail = 0; local_tail = 0; head = 0; total = 0 }
