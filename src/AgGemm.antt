-- ===== src/AgGemm.antt =====
-- include/operators/ag_gemm/ag_gemm.cuh: the commands that send a row of the gathered matrix to the
-- next node of the ring, and that forward it there.
pub mod Cover
pub mod Ring
mod Tests
use m_kernel.Prelude.{
  ℕ, zero, suc, ◌+◌, ◌-◌, ◌*◌, ◌/◌, ◌%◌, min, ltb, ◌==◌, if◌then◌else◌, Bool, ◌&&◌, ◌||◌, not, u8,
  u16, u32, u64, List, [], ◌∷◌, ◌++◌, ◌^◌, Option, some, none,
}
use m_kernel.Prelude.Int.{ℤ, pos, to_word, sub_ℕ, negsuc, int_of, quot}
use m_kernel.Types.{TransferCmd, CmdType, zero_cmd, peer_rank_for_slot, slot_at_peer}
use m_kernel.Fifo.Bundle.{FifoBundle, fifo_index_for_lane}
use m_kernel.Proxy.{plus}
use m_kernel.Proxy.Forward.{times_word}

abbrev pub chunk_bytes : ℕ
chunk_bytes = 65536

-- What the senders read of `globals`.
pub record Globals : Type 0 where
  pub node_idx : ℕ
  pub num_nodes : ℕ
  pub dev_idx : ℕ
  pub total_chunks : ℕ
  pub a_half_bytes : ℕ
  pub d2h_fifos : FifoBundle

-- `ag1_compute_wr_split`
unfoldable pub compute_wr_split : (rb_bytes : ℤ) → (ceiling : ℕ) → ℕ
compute_wr_split rb_bytes ceiling =
    let at_least_one : ℕ = elim (quot rb_bytes 2097152) [
      | pos s ↦ if ltb s 1 then 1 else s
      | negsuc _ ↦ 1
    ] in
    if ltb ceiling at_least_one then ceiling else at_least_one

-- `WR_SPLIT_CEILING`
abbrev pub wr_split_ceiling : ℕ
wr_split_ceiling = 1

-- The bytes of a row-block and its division into requests.
pub record RowBlock : Type 0 where
  pub first_chunk : ℕ
  pub base_offset : ℕ
  pub end_offset : ℕ
  pub rb_bytes : ℕ  -- uint32_t
  pub split : ℕ
  pub chunks_per_sub : ℕ
  pub bytes_per_sub : ℕ

unfoldable pub row_block : Globals → (rb chunks_per_rb : ℕ) → RowBlock
row_block g rb chunks_per_rb =
    let first_chunk : ℕ = rb * chunks_per_rb in
    let last_chunk : ℕ = min (first_chunk + chunks_per_rb) g.total_chunks in
    let base_offset : ℕ = first_chunk * chunk_bytes in
    let last_chunk_bytes : ℕ = last_chunk * chunk_bytes in
    let end_offset : ℕ =
      if ltb g.a_half_bytes last_chunk_bytes then g.a_half_bytes else last_chunk_bytes in
    let rb_bytes : ℕ = u32 (end_offset + 2 ^ 64 - base_offset) in
    let wanted : ℕ = compute_wr_split (int_of rb_bytes) wr_split_ceiling in
    let split : ℕ =
      if ltb chunks_per_rb wanted || not (chunks_per_rb % wanted == 0) then 1 else wanted in
    record {
      first_chunk = first_chunk;
      base_offset = base_offset;
      end_offset = end_offset;
      rb_bytes = rb_bytes;
      split = split;
      chunks_per_sub = chunks_per_rb / split;
      bytes_per_sub = u32 (chunks_per_rb / split * chunk_bytes);
    }

-- A push: the ring of the bundle, and the command.
abbrev pub Push : Type 0
Push = ℕ × TransferCmd

abbrev pub push_on_lane : Globals → TransferCmd → Push
push_on_lane g cmd = (fifo_index_for_lane g.d2h_fifos cmd.lane_id, cmd)

-- The end of the request `sw`, where the last one is cut to the row-block.
unfoldable pub sub_end : RowBlock → (sw sub_base : ℕ) → ℕ
sub_end b sw sub_base =
    let end : ℕ = sub_base + b.bytes_per_sub in
    if (sw + 1 == b.split) && ltb b.end_offset end then b.end_offset else end

-- The slot of this node at the next one, as a word of `m` values.
abbrev pub next_rank : Globals → ℕ
next_rank g = peer_rank_for_slot g.node_idx g.num_nodes 0

-- The command for `bytes` from `first_chunk` on, to the block `virtual` of the next node.
unfoldable pub ring_cmd :
    Globals → (virtual : ℤ) → (first_chunk source target bytes src_view lane : ℕ) → TransferCmd
ring_cmd g virtual first_chunk source target bytes src_view lane = record zero_cmd {
  cmd_type = CmdType.write;
  dst_rank = u8 (next_rank g);
  tile_id = u32 (times_word (2 ^ 32) virtual g.total_chunks + first_chunk);
  bytes = bytes;
  local_offset = source;
  remote_offset = u64 (times_word (2 ^ 64) virtual g.a_half_bytes + target);
  src_view = src_view;
  lane_id = u16 lane;
  reserved0 = u8 g.dev_idx;
}

-- The loop over the requests of a row-block, with `left` to go; `source` is where the local block
-- begins.
unfoldable pub split_cmds :
    Globals → ℤ → (source src_view rb : ℕ) → RowBlock → (left sw : ℕ) → List Push
split_cmds g virtual source src_view rb b zero sw = []
split_cmds g virtual source src_view rb b (suc left) sw =
    let sub_first_chunk : ℕ = b.first_chunk + sw * b.chunks_per_sub in
    let sub_base : ℕ = sub_first_chunk * chunk_bytes in
    push_on_lane g (
      ring_cmd g virtual sub_first_chunk (u64 (source + sub_base)) sub_base
        (u32 (sub_end b sw sub_base + 2 ^ 64 - sub_base)) src_view (rb * b.split + sw))
    ∷ split_cmds g virtual source src_view rb b left (sw + 1)

-- One row-block of `post_merge_wrs_for_intra_row`.
unfoldable pub merge_row_block : Globals → (rb chunks_per_rb : ℕ) → List Push
merge_row_block g rb chunks_per_rb =
    let b : RowBlock = row_block g rb chunks_per_rb in
    let sap : ℤ = slot_at_peer g.node_idx (next_rank g) g.num_nodes in
    if b.split == 1
    then push_on_lane g (ring_cmd g sap b.first_chunk b.base_offset b.base_offset b.rb_bytes 1 rb)
      ∷ []
    else split_cmds g sap 0 1 rb b b.split 0

-- `post_merge_wrs_for_intra_row`: two row-blocks.
unfoldable pub merge_wrs : Globals → (global_row_idx chunks_per_rb : ℕ) → List Push
merge_wrs g global_row_idx chunks_per_rb =
    merge_row_block g (2 * global_row_idx) chunks_per_rb
    ++ merge_row_block g (2 * global_row_idx + 1) chunks_per_rb

unfoldable pub forward_row_block : Globals → ℤ → (source rb chunks_per_rb : ℕ) → List Push
forward_row_block g virtual source rb chunks_per_rb =
    let b : RowBlock = row_block g rb chunks_per_rb in split_cmds g virtual source 0 rb b b.split 0

-- `post_ring_forward_wrs_for_intra_row`
unfoldable pub forward_wrs :
    Globals → (source_slot origin_rank global_row_idx chunks_per_rb dst_bank : ℕ) → List Push
forward_wrs g source_slot origin_rank global_row_idx chunks_per_rb dst_bank =
    let dst_slot : ℤ = slot_at_peer origin_rank (next_rank g) g.num_nodes in
    let virtual : ℤ = plus dst_slot ((g.num_nodes - 1) * dst_bank) in
    let source : ℕ = u64 (source_slot * g.a_half_bytes) in
    forward_row_block g virtual source (2 * global_row_idx) chunks_per_rb
    ++ forward_row_block g virtual source (2 * global_row_idx + 1) chunks_per_rb

-- The loop that adds `num_nodes` until the number is not below zero.
unfoldable pub bring_up : (fuel num_nodes : ℕ) → ℤ → Option ℕ
bring_up fuel num_nodes (pos origin) = some origin
bring_up zero num_nodes (negsuc below) = none
bring_up (suc fuel) num_nodes (negsuc below) =
    bring_up fuel num_nodes (plus (negsuc below) num_nodes)

-- `ag_gemm_ring_origin_for_step`: whose row a node receives in step `step`. The number to start from
-- is at least -(step + 1), so `step + 1` rounds are enough.
unfoldable pub ring_origin : (node_idx num_nodes step : ℕ) → Option ℕ
ring_origin node_idx num_nodes step = bring_up (step + 1) num_nodes (sub_ℕ node_idx (1 + step))
