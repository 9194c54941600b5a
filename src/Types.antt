-- ===== src/Types.antt =====
-- include/comm/internode/types.h: the command that a GPU hands to its proxy, the map between peer
-- slots and node ranks, and the packed word of an arrival queue.
pub mod Routing
pub mod Arrival
mod Tests
use m_kernel.Prelude.{
  ℕ, ◌+◌, ◌-◌, ◌*◌, ◌/◌, ◌%◌, ◌^◌, ◌<◌, bit_and, bit_or, u32, leb, ltb, ◌==◌, if◌then◌else◌, Bool,
  true, false,
}
use m_kernel.Prelude.Int.{ℤ, pos, negsuc, sub_ℕ}

pub data CmdType : Type 0 where
  empty write fence barrier_notify : CmdType

abbrev pub is_empty : CmdType → Bool
is_empty CmdType.empty = true
is_empty _ = false

-- `TransferCmd`, without its padding. The fields come in the order of its six 8-byte words.
pub record TransferCmd : Type 0 where
  pub cmd_type : CmdType  -- word 0: committed last
  pub dst_rank : ℕ  -- uint8_t
  pub lane_id : ℕ  -- uint16_t
  pub tile_id : ℕ  -- uint32_t
  pub remote_offset : ℕ  -- word 1, uint64_t
  pub local_offset : ℕ  -- word 2, uint64_t
  pub bytes : ℕ  -- word 3, uint32_t
  pub src_view : ℕ  -- uint8_t
  pub reserved0 : ℕ  -- uint8_t
  pub row_span : ℕ  -- uint16_t
  pub row_count : ℕ  -- word 4, uint16_t
  pub enqueue_device_ns : ℕ  -- word 5, uint64_t

-- `TransferCmd cmd{}`
abbrev pub zero_cmd : TransferCmd
zero_cmd = record {
  cmd_type = CmdType.empty;
  dst_rank = 0;
  lane_id = 0;
  tile_id = 0;
  remote_offset = 0;
  local_offset = 0;
  bytes = 0;
  src_view = 0;
  reserved0 = 0;
  row_span = 0;
  row_count = 0;
  enqueue_device_ns = 0;
}

-- `ForwardNotify`
pub record ForwardNotify : Type 0 where
  pub bytes : ℕ  -- uint32_t
  pub local_offset : ℕ  -- uint64_t
  pub tile_id : ℕ  -- uint32_t
  pub lane_id : ℕ  -- uint16_t
  pub reserved0 : ℕ  -- uint8_t
  pub src_view : ℕ  -- uint8_t
  pub epoch : ℕ  -- uint32_t
  pub reserved1 : ℕ  -- uint64_t

abbrev pub max_exchange_qps : ℕ
max_exchange_qps = 24

abbrev pub max_peers : ℕ
max_peers = 16

-- A zero run counts as one tile; both fields are shifted into one uint32_t.
unfoldable pub pack_arrival_work : ℕ → ℕ → ℕ
pack_arrival_work first_tile_id num_tiles =
    let n : ℕ = if num_tiles == 0 then 1 else num_tiles in
    bit_or (u32 (first_tile_id + 1)) (u32 ((n - 1) * 2 ^ 24))

unfoldable pub unpack_arrival_first_tile : ℕ → ℕ
unpack_arrival_first_tile packed = u32 (bit_and packed 0x00FFFFFF + 2 ^ 32 - 1)

unfoldable pub unpack_arrival_num_tiles : ℕ → ℕ
unpack_arrival_num_tiles packed = bit_and (packed / 2 ^ 24) 0xFF + 1

-- Slot 0 is the next rank, and so on round the ring.
unfoldable pub peer_rank_for_slot : ℕ → ℕ → ℕ → ℕ
peer_rank_for_slot node_idx num_nodes peer_slot =
    let r : ℕ = node_idx + 1 + peer_slot in if leb num_nodes r then r - num_nodes else r

-- A signed difference, brought up by `num_nodes` once if it is below zero.
unfoldable pub slot_at_peer : ℕ → ℕ → ℕ → ℤ
slot_at_peer my_rank peer_rank num_nodes = elim (sub_ℕ my_rank (peer_rank + 1)) [
  | pos slot ↦ pos slot
  | negsuc below ↦ sub_ℕ num_nodes (below + 1)
]
