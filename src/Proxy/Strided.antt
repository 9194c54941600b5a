-- ===== src/Proxy/Strided.antt =====
-- `post_strided_direct`: a gather of rows as one chain, with its arrival flag and tail.
pub mod Rows
use m_kernel.Prelude.{
  ℕ, zero, suc, ◌+◌, ◌-◌, ◌*◌, ◌/◌, ◌%◌, min, ltb, leb, ◌==◌, if◌then◌else◌, Bool, true, false,
  ◌&&◌, ◌||◌, u32, u64, List, [], ◌∷◌, ◌++◌, update,
}
use m_kernel.Types.{TransferCmd, pack_arrival_work}
use m_kernel.Proxy.{Proxy, ProxyConfig, Sge, WorkRequest, Post, post_send, batch_size}
use m_kernel.Proxy.WrId.{encode_wr_id}
use m_kernel.Proxy.Route.{addr_for_qp, rkey_for_qp}

abbrev pub tile_bytes : ℕ
tile_bytes = 65536

-- The parts of a gather that do not change along it.
pub record Gather : Type 0 where
  pub base : ℕ
  pub stride : ℕ
  pub span : ℕ
  pub source_key : ℕ
  pub target_key : ℕ

-- `n` rows from `row` on.
unfoldable pub row_sges : Gather → ℕ → ℕ → List Sge
row_sges g row zero = []
row_sges g row (suc n) =
    record { from_addr = u64 (g.base + row * g.stride); bytes_long = g.span; lkey = g.source_key }
    ∷ row_sges g (row + 1) n

-- The loop over the data requests, with `w` to go: each takes up to `max_sge` rows.
unfoldable pub data_wrs :
    Gather → (rows max_sge : ℕ) → (w row_cursor remote_cursor : ℕ) → List WorkRequest
data_wrs g rows max_sge zero row_cursor remote_cursor = []
data_wrs g rows max_sge (suc w) row_cursor remote_cursor =
    let n : ℕ = min (rows - row_cursor) max_sge in
    record {
      wr_id = 0;
      sg_list = row_sges g row_cursor n;
      remote_addr = remote_cursor;
      key = g.target_key;
      is_inline = false;
      is_signaled = false;
    }
    ∷ data_wrs g rows max_sge w (row_cursor + n) (u64 (remote_cursor + n * g.span))

-- `(rows + max_sge - 1) / max_sge`
unfoldable pub n_data_wrs : ℕ → ℕ → ℕ
n_data_wrs rows max_sge = u32 (rows + max_sge - 1) / max_sge

-- A request that writes the word of the staging memory at `slot`.
unfoldable pub word_wr :
    ProxyConfig → (slot remote key : ℕ) → (signaled : Bool) → (id : ℕ) → WorkRequest
word_wr cfg slot remote key signaled id = record {
  wr_id = id;
  sg_list =
      record { from_addr = cfg.staging_addr + slot * 4; bytes_long = 4; lkey = cfg.staging_lkey }
      ∷ [];
  remote_addr = remote;
  key = key;
  is_inline = true;
  is_signaled = signaled;
}

-- The number of tiles that a transfer touches.
unfoldable pub run_tiles : ℕ → ℕ
run_tiles bytes = u32 (bytes + tile_bytes - 1) / tile_bytes

-- `total_logical_queues > 0 ? lane_id % total_logical_queues : 0`
unfoldable pub logical_queue : ℕ → TransferCmd → ℕ
logical_queue total_logical_queues cmd =
    if total_logical_queues == 0 then 0 else cmd.lane_id % total_logical_queues

-- Where the arrival word of a queue's slot goes.
unfoldable pub queue_slot_addr : ProxyConfig → (qp logical_q q_slot : ℕ) → ℕ
queue_slot_addr cfg qp logical_q q_slot =
    u64
      (addr_for_qp cfg cfg.remote_flags qp + u32 (logical_q * cfg.remote_queue_stride + q_slot) * 4)

unfoldable pub tail_addr : ProxyConfig → (qp logical_q : ℕ) → ℕ
tail_addr cfg qp logical_q = u64 (addr_for_qp cfg cfg.remote_tail qp + logical_q * 4)

-- `flag_slot` and `tail_slot`, beyond those of a batch.
abbrev pub strided_flag_slot : ℕ
strided_flag_slot = 16

abbrev pub strided_tail_slot : ℕ
strided_tail_slot = 17

unfoldable pub strided_gather : ProxyConfig → TransferCmd → ℕ → Gather
strided_gather cfg cmd batch_qp = record {
  base = u64 (cfg.clocal_data_addr + cmd.local_offset);
  stride = u32 cfg.row_stride_bytes;
  span = cmd.row_span;
  source_key = cfg.clocal_data_lkey;
  target_key = rkey_for_qp cfg cfg.remote_data batch_qp;
}

abbrev pub strided_max_sge : ProxyConfig → ℕ
strided_max_sge cfg = if ltb 0 cfg.max_send_sge then cfg.max_send_sge else 1

-- The requests after the data, and the state with their words staged.
unfoldable pub strided_tail :
    Proxy → TransferCmd → (batch_qp total_logical_queues n_data : ℕ) → List WorkRequest × Proxy
strided_tail s cmd batch_qp total_logical_queues n_data =
    let cfg : ProxyConfig = s.cfg in
    let flag_key : ℕ = rkey_for_qp cfg cfg.remote_flags batch_qp in
    if cfg.use_arrival_queue
    then (let logical_q : ℕ = logical_queue total_logical_queues cmd in
        let q_slot : ℕ = s.sender_seq logical_q in
        let flag : Bool → ℕ → WorkRequest =
          word_wr cfg strided_flag_slot (queue_slot_addr cfg batch_qp logical_q q_slot) flag_key in
        let staged : ℕ → ℕ =
          update s.staging strided_flag_slot
            (pack_arrival_work cmd.tile_id (run_tiles cmd.bytes)) in
        let seq : ℕ → ℕ = update s.sender_seq logical_q (u32 (q_slot + 1)) in
        if cfg.enable_remote_tail
        then (
          flag false 0
              ∷ word_wr cfg strided_tail_slot (tail_addr cfg batch_qp logical_q)
                  (rkey_for_qp cfg cfg.remote_tail batch_qp) true
                  (encode_wr_id batch_qp (n_data + 2))
              ∷ [],
          record s {
            sender_seq = seq;
            staging = update staged strided_tail_slot (u32 (q_slot + 1));
          },
        )
        else (
          flag true (encode_wr_id batch_qp (n_data + 1)) ∷ [],
          record s { sender_seq = seq; staging = staged },
        ))
    else (
      word_wr cfg 0 (u64 (addr_for_qp cfg cfg.remote_flags batch_qp + cmd.tile_id * 4)) flag_key
            true (encode_wr_id batch_qp (n_data + 1))
          ∷ [],
      record s { staging = update s.staging 0 cfg.epoch },
    )

abbrev pub tail_requests : ProxyConfig → ℕ
tail_requests cfg = if cfg.use_arrival_queue && cfg.enable_remote_tail then 2 else 1

-- The number of requests posted, 0 where nothing is: the geometry is refused, or the post is.
unfoldable pub post_strided_direct :
    (accept : ℕ → Bool) → Proxy → TransferCmd → (batch_qp total_logical_queues : ℕ) → ℕ × Proxy
post_strided_direct accept s cmd batch_qp total_logical_queues =
    let cfg : ProxyConfig = s.cfg in
    let rows : ℕ = cmd.row_count in
    let max_sge : ℕ = strided_max_sge cfg in
    let n_data : ℕ = n_data_wrs rows max_sge in
    if u32 cfg.row_stride_bytes == 0 || rows == 0 || cmd.row_span == 0 || ltb 256 rows
    then (0, s)
    else if ltb 16 n_data
    then (0, s)
    else (let remote_base : ℕ =
          u64 (addr_for_qp cfg cfg.remote_data batch_qp + cmd.remote_offset) in
        let (tail, t) = strided_tail s cmd batch_qp total_logical_queues n_data in
        let (ok, u) = post_send accept t (record {
          on_qp = batch_qp;
          chain =
              data_wrs (strided_gather cfg cmd batch_qp) rows max_sge n_data 0 remote_base ++ tail;
        }) in
        if ok then (n_data + tail_requests cfg, u) else (0, u))
