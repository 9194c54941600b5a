-- ===== src/GemmAr/Arrivals/Sends.antt =====
-- src/gemm_ar.cu: the commands by which a send block hands a group of chunks of one row to all peers.
use m_kernel.Prelude.{
  ℕ, zero, suc, ◌+◌, ◌-◌, ◌*◌, ◌/◌, ◌%◌, ◌^◌, max, u8, u16, u32, u64, none, List, [], ◌∷◌,
}
use m_kernel.Prelude.Int.{ℤ, pos, negsuc, sub_ℕ, to_word}
use m_kernel.Types.{TransferCmd, CmdType, zero_cmd, peer_rank_for_slot, slot_at_peer}
use m_kernel.GemmAr.Chunks.{Chunk, chunk_decode}
use m_kernel.GemmAr.Arrivals.{FusedGlobals}

abbrev pub tile_bytes : ℕ
tile_bytes = 128 * 256 * 2

-- `a * m + k`, of an `int` `a`.
abbrev pub scaled : ℤ → (m k : ℕ) → ℤ
scaled (pos a) m k = pos (a * m + k)
scaled (negsuc a) m k = sub_ℕ k ((a + 1) * m)

-- `gemm_ar_send_logical_queue`
unfoldable pub send_logical_queue : FusedGlobals → (rb_in_slice : ℕ) → ℕ
send_logical_queue g rb_in_slice = rb_in_slice % g.num_remote_queues

abbrev pub queues_per_peer : FusedGlobals → ℕ
queues_per_peer g = max 1 (g.num_remote_queues / max 1 (g.num_nodes - 1))

-- `gemm_ar_chunk_decode`, compiled for the device, where no environment is read.
abbrev pub device_decode : FusedGlobals → ℕ → Chunk
device_decode g c = chunk_decode none c g.row_blocks_per_slice g.col_blocks g.chunk_tiles g.dev_idx

abbrev pub group_tiles : FusedGlobals → (c group_k : ℕ) → ℕ
group_tiles g c group_k =
    (group_k - 1) * g.chunk_tiles + (device_decode g (c + group_k - 1)).tiles_this_chunk

abbrev pub pack_first_tile : FusedGlobals → (c : ℕ) → ℕ
pack_first_tile g c = (device_decode g c).rb_in_slice * g.col_blocks + (device_decode g c).col_start

-- The command for one peer of the group of `group_k` chunks from `c` on; `now` is the time stamp.
unfoldable pub group_cmd : FusedGlobals → (c group_k now peer_slot : ℕ) → TransferCmd
group_cmd g c group_k now peer_slot =
    let offset : ℕ = u64 (pack_first_tile g c * tile_bytes) in
    let single_peer_tiles : ℕ = g.row_blocks_per_slice * g.col_blocks in
    let peer_rank : ℕ = peer_rank_for_slot g.node_idx g.num_nodes peer_slot in
    let sap : ℤ = slot_at_peer g.node_idx peer_rank g.num_nodes in
    let logical_q : ℕ = send_logical_queue g (device_decode g c).rb_in_slice % queues_per_peer g in
    record zero_cmd {
      cmd_type = CmdType.write;
      dst_rank = u8 peer_rank;
      lane_id = to_word (2 ^ 16) (scaled sap (queues_per_peer g) logical_q);
      tile_id = to_word (2 ^ 32) (scaled sap single_peer_tiles (pack_first_tile g c));
      remote_offset =
          u64 (to_word (2 ^ 64) (scaled sap (single_peer_tiles * tile_bytes) 0) + offset);
      local_offset = offset;
      bytes = u32 (group_tiles g c group_k * tile_bytes);
      reserved0 = u8 (peer_slot * g.num_devices + g.dev_idx);
      row_count = u16 (group_tiles g c group_k);
      enqueue_device_ns = now;
    }

-- The loop over the peers, from `peer_slot` on, with `left` of them to come.
unfoldable pub group_cmds_from :
    FusedGlobals → (c group_k : ℕ) → (now : ℕ → ℕ) → (left peer_slot : ℕ) → List TransferCmd
group_cmds_from g c group_k now zero peer_slot = []
group_cmds_from g c group_k now (suc left) peer_slot =
    group_cmd g c group_k (now peer_slot) peer_slot
    ∷ group_cmds_from g c group_k now left (suc peer_slot)

unfoldable pub group_cmds : FusedGlobals → (c group_k : ℕ) → (now : ℕ → ℕ) → List TransferCmd
group_cmds g c group_k now = group_cmds_from g c group_k now (g.num_nodes - 1) 0
