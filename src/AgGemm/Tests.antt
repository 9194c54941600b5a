-- ===== src/AgGemm/Tests.antt =====
-- The commands of a row of a small matrix.
use m_kernel.Prelude.{◌≡◌, ◌∷◌, [], ◌*◌, ◌+◌, min, arith, u64, ℕ, some, ◌<◌, ◌%◌}
use m_kernel.AgGemm.{Globals, Push, merge_wrs, chunk_bytes, forward_wrs, ring_origin}
use m_kernel.Fifo.Bundle.{make_fifo_bundle, null_device}
use m_kernel.Prelude.Int.{pos}
use m_kernel.AgGemm.Ring.{ring_origin-passed_on}
use m_kernel.AgGemm.Cover.{merge_wrs-cover, forward_wrs-merge_wrs, other_node}
use m_kernel.Types.{peer_rank_for_slot}

-- A matrix of 10 chunks whose last one is not full, on node 1 of 4.
abbrev small_matrix : Globals
small_matrix = record {
  node_idx = 1;
  num_nodes = 4;
  dev_idx = 2;
  total_chunks = 10;
  a_half_bytes = 650000;
  d2h_fifos =
      make_fifo_bundle (record null_device { triggers_at = 4096; slots = pos 1024 }) (pos 1)
        (pos 1);
}

-- Row 1 of row-blocks of 3 chunks is cut at the end of the matrix.
merge_wrs-cover_example :
    (p q : Push) × (merge_wrs small_matrix 1 3 ≡ p ∷ q ∷ [])
    × (p.1.local_offset ≡ 2 * 1 * 3 * chunk_bytes)
    × (p.1.local_offset + p.1.bytes ≡ q.1.local_offset)
    × (q.1.local_offset + q.1.bytes
        ≡ min small_matrix.a_half_bytes
            (min ((2 * 1 + 2) * 3) small_matrix.total_chunks * chunk_bytes))
merge_wrs-cover_example = merge_wrs-cover small_matrix 1 3 (omega arith) (omega arith) (omega arith)

forward_wrs-merge_wrs_example :
    (p q p2 q2 : Push) × (merge_wrs small_matrix 1 3 ≡ p ∷ q ∷ [])
    × (forward_wrs (other_node small_matrix 2 2 small_matrix.d2h_fifos) 2 0 1 3 1 ≡ p2 ∷ q2 ∷ [])
    × (p2.1.bytes ≡ p.1.bytes)
    × (q2.1.bytes ≡ q.1.bytes)
    × (p2.1.local_offset ≡ u64 (2 * small_matrix.a_half_bytes + p.1.local_offset))
    × (q2.1.local_offset ≡ u64 (2 * small_matrix.a_half_bytes + q.1.local_offset))
forward_wrs-merge_wrs_example =
    forward_wrs-merge_wrs small_matrix 2 2 small_matrix.d2h_fifos 2 0 1 3 1 (omega arith)

-- Node 2 of 4 receives the row of node 3 in step 2.
ring_origin-passed_on_example :
    (origin : ℕ) × (ring_origin 2 4 2 ≡ some origin)
    × (origin < 4)
    × ((origin + (2 + 1)) % 4 ≡ 2)
    × (ring_origin (peer_rank_for_slot 2 4 0) 4 (2 + 1) ≡ some origin)
ring_origin-passed_on_example = ring_origin-passed_on 2 4 2 (omega arith)
