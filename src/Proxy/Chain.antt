-- ===== src/Proxy/Chain.antt =====
-- Step 2 of the proxy's loop: the chain of work requests for a batch.
pub mod Batch
use m_kernel.Prelude.{
  ℕ, zero, suc, ◌+◌, ◌*◌, ◌%◌, ◌==◌, if◌then◌else◌, Bool, true, false, ◌&&◌, List, [], ◌∷◌, ◌++◌,
  update, u32, u64,
}
use m_kernel.Types.{TransferCmd, ForwardNotify, pack_arrival_work}
use m_kernel.Proxy.{Proxy, ProxyConfig, Sge, WorkRequest, Post, batch_size}
use m_kernel.Proxy.WrId.{encode_wr_id}
use m_kernel.Proxy.Route.{addr_for_qp, rkey_for_qp}
use m_kernel.Proxy.Strided.{word_wr, run_tiles, logical_queue, queue_slot_addr, tail_addr}
use m_kernel.Proxy.Forward.{forward_notify_enabled}

-- The data request of a command, from the staging buffer or directly from the matrix.
unfoldable pub data_wr : ProxyConfig → ℕ → TransferCmd → WorkRequest
data_wr cfg qp cmd =
    let direct : Bool = cfg.direct_dmabuf_enabled && (cmd.src_view == 1) in
    record {
      wr_id = 0;
      sg_list =
          record {
            from_addr =
                u64 (
                  (if direct then cfg.clocal_data_addr else cfg.local_data_addr)
                  + cmd.local_offset);
            bytes_long = cmd.bytes;
            lkey = if direct then cfg.clocal_data_lkey else cfg.local_data_lkey;
          }
          ∷ [];
      remote_addr = u64 (addr_for_qp cfg cfg.remote_data qp + cmd.remote_offset);
      key = rkey_for_qp cfg cfg.remote_data qp;
      is_inline = false;
      is_signaled = false;
    }

-- The notification of a forwarded command: `token_at i` is the address of `notify_payload_[i]`.
unfoldable pub notify_wr : (token_at : ℕ) → ProxyConfig → ℕ → TransferCmd → Bool → ℕ → WorkRequest
notify_wr token_at cfg qp cmd signaled id = record {
  wr_id = id;
  sg_list = record { from_addr = token_at; bytes_long = 32; lkey = 0 } ∷ [];
  remote_addr = u64 (addr_for_qp cfg cfg.remote_forward_notify qp + cmd.tile_id * 32);
  key = rkey_for_qp cfg cfg.remote_forward_notify qp;
  is_inline = true;
  is_signaled = signaled;
}

unfoldable pub notify_of : ProxyConfig → TransferCmd → ForwardNotify
notify_of cfg cmd = record {
  bytes = cmd.bytes;
  local_offset = cmd.remote_offset;
  tile_id = cmd.tile_id;
  lane_id = cmd.lane_id;
  reserved0 = cmd.reserved0;
  src_view = cmd.src_view;
  epoch = cfg.epoch;
  reserved1 = 0;
}

module _ (payload_at : ℕ → ℕ) (total_logical_queues qp count : ℕ) where
  -- The requests of the `i`-th command of the batch, and the state with their words staged. The last
  -- request of the last command is signaled, with the count of the batch.
  unfoldable pub cmd_wrs :
      Proxy → (i : ℕ) → (is_last : Bool) → TransferCmd → List WorkRequest × Proxy
  cmd_wrs s i is_last cmd =
      let cfg : ProxyConfig = s.cfg in
      let id : ℕ = if is_last then encode_wr_id qp count else 0 in
      let flag_key : ℕ = rkey_for_qp cfg cfg.remote_flags qp in
      if cfg.use_arrival_queue
      then (let logical_q : ℕ = logical_queue total_logical_queues cmd in
          let q_slot : ℕ = s.sender_seq logical_q in
          let flag : Bool → ℕ → WorkRequest =
            word_wr cfg i (queue_slot_addr cfg qp logical_q q_slot) flag_key in
          let staged : ℕ → ℕ =
            update s.staging i (pack_arrival_work cmd.tile_id (run_tiles cmd.bytes)) in
          let seq : ℕ → ℕ = update s.sender_seq logical_q (u32 (q_slot + 1)) in
          if cfg.enable_remote_tail
          then (
            data_wr cfg qp cmd
                ∷ flag false 0
                ∷ word_wr cfg (batch_size + i) (tail_addr cfg qp logical_q)
                    (rkey_for_qp cfg cfg.remote_tail qp) is_last id
                ∷ [],
            record s {
              sender_seq = seq;
              staging = update staged (batch_size + i) (u32 (q_slot + 1));
            },
          )
          else (
            data_wr cfg qp cmd ∷ flag is_last id ∷ [],
            record s { sender_seq = seq; staging = staged },
          ))
      else (let flag : Bool → ℕ → WorkRequest =
            word_wr cfg 0 (u64 (addr_for_qp cfg cfg.remote_flags qp + cmd.tile_id * 4)) flag_key in
          if forward_notify_enabled cfg cmd
          then (
            data_wr cfg qp cmd ∷ flag false 0 ∷ notify_wr (payload_at i) cfg qp cmd is_last id ∷ [],
            record s { notify_payload = update s.notify_payload i (notify_of cfg cmd) },
          )
          else (data_wr cfg qp cmd ∷ flag is_last id ∷ [], s))

  -- The loop over the batch, from the index `i` on.
  unfoldable pub chain_from : Proxy → ℕ → List TransferCmd → List WorkRequest × Proxy
  chain_from s i [] = ([], s)
  chain_from s i (cmd ∷ cmds) =
      let (wrs, t) = cmd_wrs s i (i + 1 == count) cmd in
      let (rest, u) = chain_from t (i + 1) cmds in (wrs ++ rest, u)

  -- The whole batch, after the epoch is staged in the first word.
  unfoldable pub build_chain : Proxy → List TransferCmd → List WorkRequest × Proxy
  build_chain s batch = chain_from (record s { staging = update s.staging 0 s.cfg.epoch }) 0 batch
