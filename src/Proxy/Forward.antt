-- ===== src/Proxy/Forward.antt =====
-- Store and forward: which commands are notified onwards, the command made of a notification, and
-- the scan of the table of notifications.
pub mod Hops
use m_kernel.Prelude.{
  ℕ, zero, suc, ◌+◌, ◌-◌, ◌*◌, ◌/◌, ◌%◌, ltb, leb, ◌==◌, if◌then◌else◌, Bool, true, false, not,
  ◌&&◌, ◌||◌, Option, none, some, u8, u32, u64, List, [], ◌∷◌, update, ◌^◌,
}
use m_kernel.Prelude.Int.{ℤ, pos, negsuc, to_word, quot, sub_ℕ, int_of, remainder}
use m_kernel.Types.{TransferCmd, CmdType, ForwardNotify, zero_cmd, peer_rank_for_slot, slot_at_peer}
use m_kernel.Proxy.{
  Proxy, ProxyConfig, Sge, WorkRequest, Post, post_send, add_inflight, plus, below, minus,
}
use m_kernel.Proxy.WrId.{encode_wr_id}
use m_kernel.Proxy.Route.{addr_for_qp, rkey_for_qp, local_qp}
use m_kernel.Proxy.Strided.{word_wr}

-- `forward_notify_enabled_for_cmd`
unfoldable pub forward_notify_enabled : ProxyConfig → TransferCmd → Bool
forward_notify_enabled cfg cmd =
    let n_peers : ℕ = cfg.num_nodes - 1 in
    if not cfg.enable_forward_notify || cfg.total_chunks == 0 || cfg.a_half_bytes == 0
    then false
    else if leb cfg.forward_notify_slots cmd.tile_id
    then false
    else if ltb n_peers 1
    then false
    else below (quot (quot (int_of cmd.tile_id) cfg.total_chunks) n_peers) 1 n_peers

-- `peer_rank_for_slot` on an `int`, which is below zero for a tile from 2^31 on.
unfoldable pub rank_for_slot : ℕ → ℕ → ℤ → ℤ
rank_for_slot node_idx num_nodes (pos slot) = pos (peer_rank_for_slot node_idx num_nodes slot)
rank_for_slot node_idx num_nodes (negsuc k) = elim (sub_ℕ node_idx k) [
  | pos r ↦ pos (if leb num_nodes r then r - num_nodes else r)
  | negsuc r ↦ negsuc r
]

-- `slot_at_peer` for the rank that `rank_for_slot` gives.
unfoldable pub slot_for_rank : ℤ → ℕ → ℕ → ℤ
slot_for_rank (pos my_rank) peer_rank num_nodes = slot_at_peer my_rank peer_rank num_nodes
slot_for_rank (negsuc k) peer_rank num_nodes = sub_ℕ num_nodes (k + peer_rank + 2)

-- `dst_slot + n_peers * (src_bank + 1)`, in `int`
unfoldable pub dst_virtual : ℤ → ℕ → ℤ → ℤ
dst_virtual dst_slot n_peers (pos src_bank) = plus dst_slot (n_peers * (src_bank + 1))
dst_virtual dst_slot n_peers (negsuc k) = minus dst_slot (n_peers * k)

-- A product of an `int` with a number, as a word of `m` values.
unfoldable pub times_word : ℕ → ℤ → ℕ → ℕ
times_word m z n = to_word m z * n % m

-- `make_forward_cmd_from_notify`
unfoldable pub make_forward_cmd : ProxyConfig → ForwardNotify → TransferCmd
make_forward_cmd cfg n =
    let n_peers : ℕ = cfg.num_nodes - 1 in
    let src_virtual : ℤ = quot (int_of n.tile_id) cfg.total_chunks in
    let src_slot : ℤ = remainder src_virtual n_peers in
    let src_bank : ℤ = quot src_virtual n_peers in
    let origin_rank : ℤ = rank_for_slot cfg.rank cfg.num_nodes src_slot in
    let next_rank : ℕ = peer_rank_for_slot cfg.rank cfg.num_nodes 0 in
    let dst_slot : ℤ = slot_for_rank origin_rank next_rank cfg.num_nodes in
    let dst : ℤ = dst_virtual dst_slot n_peers src_bank in
    let chunk : ℕ = n.tile_id % cfg.total_chunks in
    let base : ℕ = u32 (n.local_offset % cfg.a_half_bytes) in
    record zero_cmd {
      cmd_type = CmdType.write;
      dst_rank = u8 next_rank;
      bytes = n.bytes;
      local_offset = n.local_offset;
      src_view = 0;
      lane_id = n.lane_id;
      reserved0 = u8 cfg.device_id;
      tile_id = u32 (times_word (2 ^ 32) dst cfg.total_chunks + chunk);
      remote_offset = u64 (times_word (2 ^ 64) dst cfg.a_half_bytes + base);
    }

-- The place of the epoch that `post_single_write_flat` stages.
abbrev pub single_slot : ℕ
single_slot = 16

-- The data and the epoch of one command.
unfoldable pub single_chain : ProxyConfig → TransferCmd → ℕ → List WorkRequest
single_chain cfg cmd qp =
    record {
      wr_id = 0;
      sg_list =
          record {
            from_addr = u64 (cfg.local_data_addr + cmd.local_offset);
            bytes_long = cmd.bytes;
            lkey = cfg.local_data_lkey;
          }
          ∷ [];
      remote_addr = u64 (addr_for_qp cfg cfg.remote_data qp + cmd.remote_offset);
      key = rkey_for_qp cfg cfg.remote_data qp;
      is_inline = false;
      is_signaled = false;
    }
    ∷ word_wr cfg single_slot (u64 (addr_for_qp cfg cfg.remote_flags qp + cmd.tile_id * 4))
        (rkey_for_qp cfg cfg.remote_flags qp) true (encode_wr_id qp 1)
    ∷ []

-- `post_single_write_flat`: whether the write was posted.
unfoldable pub post_single_write_flat : (accept : ℕ → Bool) → Proxy → TransferCmd → Bool × Proxy
post_single_write_flat accept s cmd = elim (local_qp s.cfg cmd) [
  | none ↦ (false, s)
  | some qp ↦
      let t : Proxy = record s { staging = update s.staging single_slot s.cfg.epoch } in
      let (ok, u) = post_send accept t (record { on_qp = qp; chain = single_chain s.cfg cmd qp }) in
      if ok then (true, add_inflight u 1) else (false, u)
]

module _ (accept : ℕ → Bool) (table : ℕ → ForwardNotify) where
  -- What the scan does at one slot of the table.
  unfoldable pub scan_slot : Proxy → ℕ → Proxy
  scan_slot s slot =
      let n : ForwardNotify = table slot in
      if s.forward_seen_epoch slot == s.cfg.epoch
      then s
      else if not (n.epoch == s.cfg.epoch)
      then s
      else if not (n.tile_id == slot)
      then s
      else (let (ok, t) = post_single_write_flat accept s (make_forward_cmd s.cfg n) in
          if ok
          then record t { forward_seen_epoch = update t.forward_seen_epoch slot s.cfg.epoch }
          else t)

  -- The cursor goes round the table.
  unfoldable pub next_slot : ProxyConfig → ℕ → ℕ
  next_slot cfg cursor = if leb cfg.forward_notify_slots (cursor + 1) then 0 else cursor + 1

  unfoldable pub scan : ℕ → Proxy → Proxy
  scan zero s = s
  scan (suc left) s = scan left (
      scan_slot (record s { forward_scan_cursor = next_slot s.cfg s.forward_scan_cursor })
        s.forward_scan_cursor)

  -- `poll_forward_notifications`: at most 256 slots in one loop.
  unfoldable pub poll_forward_notifications : Proxy → Proxy
  poll_forward_notifications s =
      if not s.cfg.enable_forward_notify
        || not s.cfg.has_local_forward_notify
        || s.cfg.forward_notify_slots == 0
      then s
      else scan 256 s
