-- ===== src/GemmAr/Scratch.antt =====
-- include/operators/gemm_ar/gemm_ar.cuh: the host's layout of the scratch memory of the kernels, in
-- 4-byte words. The numbers of the source are `int`s.
pub mod Apart
pub mod Room
mod Tests
use m_kernel.Prelude.{
  ℕ, ◌+◌, ◌-◌, ◌*◌, ◌/◌, max, smear, Option, List, [], ◌∷◌, Bool, if◌then◌else◌, ltb, some, none,
  ◌^◌, ◌&&◌,
}
use m_kernel.GemmAr.Chunks

-- `gemm_ar_scratch_layout`
pub record ScratchLayout : Type 0 where
  pub slice_rows : ℕ
  pub row_blocks_per_slice : ℕ
  pub col_blocks : ℕ
  pub total_chunks : ℕ
  pub total_tiles : ℕ
  pub chunk_tiles : ℕ
  pub chunks_per_row : ℕ
  pub chunk_remote_arrived_offset : ℕ
  pub arrival_queue_head_offset : ℕ
  pub local_ar_done_offset : ℕ
  pub send_issued_offset : ℕ
  pub remote_arrived_offset : ℕ
  pub published_offset : ℕ
  pub final_publish_done_offset : ℕ
  pub debug_flags_offset : ℕ
  pub debug_dump_counter_offset : ℕ
  pub queue_expected_offset : ℕ
  pub queue_observed_offset : ℕ
  pub row_send_count_offset : ℕ
  pub slice_tiles : ℕ
  pub gemm_tiles_ready_count_offset : ℕ
  pub gemm_tile_scanned_offset : ℕ
  pub gemm_rq_entries_offset : ℕ
  pub gemm_rq_capacity : ℕ
  pub gemm_rq_head_offset : ℕ
  pub gemm_rq_tail_offset : ℕ
  pub gemm_scan_cursor_offset : ℕ
  pub local_ar_rq_capacity : ℕ
  pub local_ar_rq_entries_offset : ℕ
  pub local_ar_rq_head_offset : ℕ
  pub local_ar_rq_tail_offset : ℕ
  pub remote_rq_capacity : ℕ
  pub remote_rq_entries_offset : ℕ
  pub remote_rq_head_offset : ℕ
  pub remote_rq_tail_offset : ℕ
  pub owner_pending_capacity : ℕ
  pub owner_pending_entries_offset : ℕ
  pub owner_pending_head_offset : ℕ
  pub owner_pending_tail_offset : ℕ
  pub owner_pending_max_depth_offset : ℕ
  pub owner_pending_push_count_offset : ℕ
  pub owner_pending_pop_count_offset : ℕ
  pub local_done_flag_offset : ℕ
  pub remote_arrived_flag_offset : ℕ
  pub remote_arrived_peer_mask_offset : ℕ
  pub intra_started_flag_offset : ℕ
  pub reduce_cursor_offset : ℕ
  pub chunk_claimed_flag_offset : ℕ
  pub comp_chunk_tiles_done_offset : ℕ
  pub intra_chunk_tiles_done_offset : ℕ
  pub xnode_ready_offset : ℕ
  pub scratch_ints_needed : ℕ
  pub remote_queue_stride : ℕ

-- The next power of two, as both rings compute it.
abbrev pub ring_capacity : ℕ → ℕ
ring_capacity cap = smear (cap - 1) + 1

-- The numbers of `gemm_ar_compute_scratch_layout`, as long as no `int` overflows.
unfoldable pub layout_numbers :
    (env : Option ℕ)
    → (num_devices m_rows n_cols num_remote_queues num_allocated_remote_queues num_nodes : ℕ)
    → ScratchLayout
layout_numbers env num_devices m_rows n_cols num_remote_queues num_allocated_remote_queues
      num_nodes =
    let slice_rows : ℕ = m_rows / num_devices in
    let row_blocks_per_slice : ℕ = slice_rows / 128 in
    let col_blocks : ℕ = n_cols / 256 in
    let total_chunks : ℕ = row_blocks_per_slice * Chunks.chunks_per_row env col_blocks in
    let total_tiles : ℕ = (m_rows / 128) * col_blocks in
    let chunk_tiles : ℕ = Chunks.chunk_tiles env col_blocks in
    let chunks_per_row : ℕ = Chunks.chunks_per_row env col_blocks in
    let chunk_remote_arrived_offset : ℕ = 0 in
    let arrival_queue_head_offset : ℕ = chunk_remote_arrived_offset + total_chunks in
    let local_ar_done_offset : ℕ = arrival_queue_head_offset + num_remote_queues in
    let send_issued_offset : ℕ = local_ar_done_offset + 1 in
    let remote_arrived_offset : ℕ = send_issued_offset + 1 in
    let published_offset : ℕ = remote_arrived_offset + 1 in
    let final_publish_done_offset : ℕ = published_offset + 1 in
    let debug_flags_offset : ℕ = final_publish_done_offset + 1 in
    let debug_dump_counter_offset : ℕ = debug_flags_offset + 1 in
    let queue_expected_offset : ℕ = debug_dump_counter_offset + 1 in
    let queue_observed_offset : ℕ = queue_expected_offset + num_remote_queues in
    let row_send_count_offset : ℕ = queue_observed_offset + num_remote_queues in
    let slice_tiles : ℕ = row_blocks_per_slice * col_blocks in
    let gemm_tiles_ready_count_offset : ℕ = row_send_count_offset + row_blocks_per_slice in
    let gemm_tile_scanned_offset : ℕ = gemm_tiles_ready_count_offset + total_chunks in
    let gemm_rq_entries_offset : ℕ = gemm_tile_scanned_offset + slice_tiles in
    let gemm_rq_capacity : ℕ = ring_capacity (max 16 total_chunks) in
    let gemm_rq_head_offset : ℕ = gemm_rq_entries_offset + gemm_rq_capacity in
    let gemm_rq_tail_offset : ℕ = gemm_rq_head_offset + 1 in
    let gemm_scan_cursor_offset : ℕ = gemm_rq_tail_offset + 1 in
    let local_ar_rq_capacity : ℕ = gemm_rq_capacity in
    let local_ar_rq_entries_offset : ℕ = gemm_scan_cursor_offset + 1 in
    let local_ar_rq_head_offset : ℕ = local_ar_rq_entries_offset + local_ar_rq_capacity in
    let local_ar_rq_tail_offset : ℕ = local_ar_rq_head_offset + 1 in
    let remote_rq_capacity : ℕ = gemm_rq_capacity in
    let remote_rq_entries_offset : ℕ = local_ar_rq_tail_offset + 1 in
    let remote_rq_head_offset : ℕ = remote_rq_entries_offset + remote_rq_capacity in
    let remote_rq_tail_offset : ℕ = remote_rq_head_offset + 1 in
    let owner_pending_capacity : ℕ = ring_capacity (max 8 (chunks_per_row * 2)) in
    let owner_pending_entries_offset : ℕ = remote_rq_tail_offset + 1 in
    let owner_pending_head_offset : ℕ =
      owner_pending_entries_offset + num_remote_queues * owner_pending_capacity in
    let owner_pending_tail_offset : ℕ = owner_pending_head_offset + num_remote_queues in
    let owner_pending_max_depth_offset : ℕ = owner_pending_tail_offset + num_remote_queues in
    let owner_pending_push_count_offset : ℕ = owner_pending_max_depth_offset + num_remote_queues in
    let owner_pending_pop_count_offset : ℕ = owner_pending_push_count_offset + num_remote_queues in
    let local_done_flag_offset : ℕ = owner_pending_pop_count_offset + num_remote_queues in
    let remote_arrived_flag_offset : ℕ = local_done_flag_offset + total_chunks in
    let remote_arrived_peer_mask_offset : ℕ = remote_arrived_flag_offset + total_chunks in
    let intra_started_flag_offset : ℕ = remote_arrived_peer_mask_offset + total_chunks in
    let reduce_cursor_offset : ℕ = intra_started_flag_offset + 16 in
    let chunk_claimed_flag_offset : ℕ = reduce_cursor_offset + 1 in
    let comp_chunk_tiles_done_offset : ℕ = chunk_claimed_flag_offset + total_chunks in
    let total_all_chunks : ℕ = m_rows / 128 * chunks_per_row in
    let intra_chunk_tiles_done_offset : ℕ = comp_chunk_tiles_done_offset + total_all_chunks in
    let xnode_ready_offset : ℕ = intra_chunk_tiles_done_offset + total_chunks in
    let scratch_ints_needed : ℕ = xnode_ready_offset + 1 in
    let n_peers : ℕ = max 1 (num_nodes - 1) in
    let remote_queue_stride : ℕ =
      max 1
        ((total_tiles * n_peers + num_allocated_remote_queues - 1) / num_allocated_remote_queues) in
    record {
      slice_rows = slice_rows;
      row_blocks_per_slice = row_blocks_per_slice;
      col_blocks = col_blocks;
      total_chunks = total_chunks;
      total_tiles = total_tiles;
      chunk_tiles = chunk_tiles;
      chunks_per_row = chunks_per_row;
      chunk_remote_arrived_offset = chunk_remote_arrived_offset;
      arrival_queue_head_offset = arrival_queue_head_offset;
      local_ar_done_offset = local_ar_done_offset;
      send_issued_offset = send_issued_offset;
      remote_arrived_offset = remote_arrived_offset;
      published_offset = published_offset;
      final_publish_done_offset = final_publish_done_offset;
      debug_flags_offset = debug_flags_offset;
      debug_dump_counter_offset = debug_dump_counter_offset;
      queue_expected_offset = queue_expected_offset;
      queue_observed_offset = queue_observed_offset;
      row_send_count_offset = row_send_count_offset;
      slice_tiles = slice_tiles;
      gemm_tiles_ready_count_offset = gemm_tiles_ready_count_offset;
      gemm_tile_scanned_offset = gemm_tile_scanned_offset;
      gemm_rq_entries_offset = gemm_rq_entries_offset;
      gemm_rq_capacity = gemm_rq_capacity;
      gemm_rq_head_offset = gemm_rq_head_offset;
      gemm_rq_tail_offset = gemm_rq_tail_offset;
      gemm_scan_cursor_offset = gemm_scan_cursor_offset;
      local_ar_rq_capacity = local_ar_rq_capacity;
      local_ar_rq_entries_offset = local_ar_rq_entries_offset;
      local_ar_rq_head_offset = local_ar_rq_head_offset;
      local_ar_rq_tail_offset = local_ar_rq_tail_offset;
      remote_rq_capacity = remote_rq_capacity;
      remote_rq_entries_offset = remote_rq_entries_offset;
      remote_rq_head_offset = remote_rq_head_offset;
      remote_rq_tail_offset = remote_rq_tail_offset;
      owner_pending_capacity = owner_pending_capacity;
      owner_pending_entries_offset = owner_pending_entries_offset;
      owner_pending_head_offset = owner_pending_head_offset;
      owner_pending_tail_offset = owner_pending_tail_offset;
      owner_pending_max_depth_offset = owner_pending_max_depth_offset;
      owner_pending_push_count_offset = owner_pending_push_count_offset;
      owner_pending_pop_count_offset = owner_pending_pop_count_offset;
      local_done_flag_offset = local_done_flag_offset;
      remote_arrived_flag_offset = remote_arrived_flag_offset;
      remote_arrived_peer_mask_offset = remote_arrived_peer_mask_offset;
      intra_started_flag_offset = intra_started_flag_offset;
      reduce_cursor_offset = reduce_cursor_offset;
      chunk_claimed_flag_offset = chunk_claimed_flag_offset;
      comp_chunk_tiles_done_offset = comp_chunk_tiles_done_offset;
      intra_chunk_tiles_done_offset = intra_chunk_tiles_done_offset;
      xnode_ready_offset = xnode_ready_offset;
      scratch_ints_needed = scratch_ints_needed;
      remote_queue_stride = remote_queue_stride;
    }

-- Whether all `int`s of the computation fit. Each sum and product on the way is at most one of these,
-- or at most a dimension of the matrix.
unfoldable pub ints_fit : ScratchLayout → (num_allocated_remote_queues num_nodes : ℕ) → Bool
ints_fit s num_allocated_remote_queues num_nodes =
    ltb s.scratch_ints_needed (2 ^ 31)
    && ltb (s.chunks_per_row * 2) (2 ^ 31)
    && ltb s.owner_pending_capacity (2 ^ 31)
    && ltb (s.total_tiles * max 1 (num_nodes - 1) + num_allocated_remote_queues) (2 ^ 31)

-- `gemm_ar_compute_scratch_layout`; `none` where an `int` overflows, which C++ leaves undefined.
unfoldable pub compute_scratch_layout :
    (env : Option ℕ)
    → (num_devices m_rows n_cols num_remote_queues num_allocated_remote_queues num_nodes : ℕ)
    → Option ScratchLayout
compute_scratch_layout env num_devices m_rows n_cols num_remote_queues num_allocated_remote_queues
      num_nodes =
    let s : ScratchLayout =
      layout_numbers env num_devices m_rows n_cols num_remote_queues num_allocated_remote_queues
        num_nodes in
    if ints_fit s num_allocated_remote_queues num_nodes then some s else none
