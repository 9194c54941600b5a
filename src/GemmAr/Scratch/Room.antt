-- ===== src/GemmAr/Scratch/Room.antt =====
-- The rings and the arrival queues of the layout are large enough.
use m_kernel.Prelude.{some, some}
use m_kernel.Prelude.{ℕ, IsPow2, ◌≤◌, ◌*◌, ◌-◌}
use m_kernel.GemmAr.Scratch.{ScratchLayout}

-- What the places of a layout are enough for.
abbrev pub HasRoom : ScratchLayout → (num_allocated_remote_queues num_nodes : ℕ) → Type 0
HasRoom s num_allocated_remote_queues num_nodes =
    IsPow2 s.gemm_rq_capacity
    × (s.total_chunks ≤ s.gemm_rq_capacity)
    × IsPow2 s.owner_pending_capacity
    × (2 * s.chunks_per_row ≤ s.owner_pending_capacity)
    × (s.total_tiles * (num_nodes - 1) ≤ s.remote_queue_stride * num_allocated_remote_queues)
