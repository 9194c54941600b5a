-- ===== src/Efa/Post.antt =====
-- The requests of the EFA proxy: the barrier between nodes, and those of a batch in both notify
-- modes.
pub mod Counts
pub mod Carried
pub mod Staging
pub mod Still
pub mod Places
use m_kernel.Prelude.{
  ℕ, Bool, List, Option, [], none, ◌&&◌, ◌∷◌, if◌then◌else◌, not, some, suc, u64, ◌++◌, ◌+◌, u32,
  ◌*◌, ◌==◌, update, zero,
}
use m_kernel.Efa.{
  EfaConfig, EfaRequest, Peer, Efa, Source, staging_slot, stage, wr_complete, EfaPost,
}
use m_kernel.Types.{TransferCmd, pack_arrival_work}
use m_kernel.Proxy.{plus}
use m_kernel.Proxy.Strided.{run_tiles, logical_queue}

-- The request of the barrier to a peer, whose word is in the slot that the cursor claims.
unfoldable pub barrier_post : (slot : ℕ) → Efa → Peer → EfaPost
barrier_post slot s peer = record {
  on_qp = 0;
  requests =
      record {
        wr_id = 1;
        remote_addr = u64 (peer.remote_barrier_addr + slot * 4);
        rkey = peer.remote_barrier_rkey;
        imm = none;
        to_ah = peer.dst_ah;
        to_qpn = peer.dst_qpns 0;
        source = record {
          at_addr = s.cfg.staging_addr + staging_slot s * 4;
          size = 4;
          lkey = s.cfg.staging_lkey;
        };
      }
      ∷ [];
}

-- The body of the loop of `post_stage_barrier`.
unfoldable pub barrier_to : (accept : ℕ → Bool) → (slot token : ℕ) → Efa → Peer → Efa
barrier_to accept slot token s peer =
    if peer.remote_barrier_addr == 0
    then s
    else (let (ok, t) = wr_complete accept (stage s token) (barrier_post slot s peer) in
        if ok then record t { inflight = plus t.inflight 1 } else t)

-- `post_stage_barrier`, from peer `p` on with `left` to go
unfoldable pub efa_barrier_loop : (accept : ℕ → Bool) → (slot token left p : ℕ) → Efa → Efa
efa_barrier_loop accept slot token zero p s = s
efa_barrier_loop accept slot token (suc left) p s =
    efa_barrier_loop accept slot token left (p + 1)
      (barrier_to accept slot token s (s.cfg.per_peer p))

unfoldable pub efa_stage_barrier : (accept : ℕ → Bool) → (slot token : ℕ) → Efa → Efa
efa_stage_barrier accept slot token s =
    if s.cfg.has_staging then efa_barrier_loop accept slot token s.cfg.num_peers 0 s else s

-- The memory of a command's data.
unfoldable pub efa_source : EfaConfig → TransferCmd → Source
efa_source cfg cmd =
    if cfg.direct_dmabuf_enabled && (cmd.src_view == 1)
    then record {
      at_addr = u64 (cfg.clocal_data_addr + cmd.local_offset);
      size = cmd.bytes;
      lkey = cfg.clocal_data_lkey;
    }
    else record {
      at_addr = u64 (cfg.local_data_addr + cmd.local_offset);
      size = cmd.bytes;
      lkey = cfg.local_data_lkey;
    }

-- A data write, plain or with an immediate value.
unfoldable pub efa_data : EfaConfig → Peer → (qpn id : ℕ) → Option ℕ → TransferCmd → EfaRequest
efa_data cfg peer qpn id imm cmd = record {
  wr_id = id;
  remote_addr = u64 (peer.remote_data_addr + cmd.remote_offset);
  rkey = peer.remote_data_rkey;
  imm = imm;
  to_ah = peer.dst_ah;
  to_qpn = qpn;
  source = efa_source cfg cmd;
}

-- `post_write_imm_batch`
unfoldable pub write_imm_batch : EfaConfig → Peer → ℕ → List TransferCmd → List EfaRequest
write_imm_batch cfg peer qpn [] = []
write_imm_batch cfg peer qpn (cmd ∷ cmds) =
    efa_data cfg peer qpn 1 (some cmd.tile_id) cmd ∷ write_imm_batch cfg peer qpn cmds

-- A write of the word in a slot of the staging memory.
unfoldable pub efa_word : EfaConfig → Peer → (qpn id slot remote key : ℕ) → EfaRequest
efa_word cfg peer qpn id slot remote key = record {
  wr_id = id;
  remote_addr = remote;
  rkey = key;
  imm = none;
  to_ah = peer.dst_ah;
  to_qpn = qpn;
  source = record { at_addr = cfg.staging_addr + slot * 4; size = 4; lkey = cfg.staging_lkey };
}

-- The requests of one command, in the order in which they are posted.
pub record CmdRequests : Type 0 where
  pub data_request : EfaRequest
  pub flag_request : EfaRequest
  pub tail_request : Option EfaRequest

abbrev pub efa_has_tail : EfaConfig → Peer → Bool
efa_has_tail cfg peer = cfg.enable_remote_tail && not (peer.remote_tail_addr == 0)

-- One command of `post_remote_flag_batch` in the queue layout.
unfoldable pub queue_requests :
    Peer → (qpn total_logical_queues : ℕ) → Efa → TransferCmd → CmdRequests × Efa
queue_requests peer qpn total_logical_queues s cmd =
    let cfg : EfaConfig = s.cfg in
    let flag_slot : ℕ = staging_slot s in
    let t : Efa = stage s (pack_arrival_work cmd.tile_id (run_tiles cmd.bytes)) in
    let logical_q : ℕ = logical_queue total_logical_queues cmd in
    let q_slot : ℕ = s.sender_seq logical_q in
    let u : Efa = record t { sender_seq = update s.sender_seq logical_q (u32 (q_slot + 1)) } in
    let flag_addr : ℕ =
      u64 (peer.remote_flags_addr + u32 (logical_q * cfg.remote_queue_stride + q_slot) * 4) in
    if efa_has_tail cfg peer
    then (
      record {
        data_request = efa_data cfg peer qpn 0 none cmd;
        flag_request = efa_word cfg peer qpn 0 flag_slot flag_addr peer.remote_flags_rkey;
        tail_request = some (
            efa_word cfg peer qpn 1 (staging_slot u) (u64 (peer.remote_tail_addr + logical_q * 4))
              peer.remote_tail_rkey);
      },
      stage u (u32 (q_slot + 1)),
    )
    else (
      record {
        data_request = efa_data cfg peer qpn 0 none cmd;
        flag_request = efa_word cfg peer qpn 1 flag_slot flag_addr peer.remote_flags_rkey;
        tail_request = none;
      },
      u,
    )

-- One command in the flat layout, whose flag is read from slot 0.
unfoldable pub flat_requests : EfaConfig → Peer → (qpn : ℕ) → TransferCmd → CmdRequests
flat_requests cfg peer qpn cmd = record {
  data_request = efa_data cfg peer qpn 0 none cmd;
  flag_request =
      efa_word cfg peer qpn 1 0 (u64 (peer.remote_flags_addr + cmd.tile_id * 4))
        peer.remote_flags_rkey;
  tail_request = none;
}

unfoldable pub cmd_requests :
    Peer → (qpn total_logical_queues : ℕ) → Efa → TransferCmd → CmdRequests × Efa
cmd_requests peer qpn total_logical_queues s cmd =
    if s.cfg.use_arrival_queue
    then queue_requests peer qpn total_logical_queues s cmd
    else (flat_requests s.cfg peer qpn cmd, s)

-- The loop of `post_remote_flag_batch`.
unfoldable pub flag_loop :
    Peer → (qpn total_logical_queues : ℕ) → Efa → List TransferCmd → List CmdRequests × Efa
flag_loop peer qpn total_logical_queues s [] = ([], s)
flag_loop peer qpn total_logical_queues s (cmd ∷ cmds) =
    let (r, t) = cmd_requests peer qpn total_logical_queues s cmd in
    let (rs, u) = flag_loop peer qpn total_logical_queues t cmds in (r ∷ rs, u)

unfoldable pub remote_flag_batch :
    Peer → (qpn : ℕ) → Efa → List TransferCmd → List CmdRequests × Efa
remote_flag_batch peer qpn s batch =
    if s.cfg.use_arrival_queue
    then flag_loop peer qpn (u32 (s.cfg.global_num_qps * s.cfg.logical_queues_per_qp)) s batch
    else flag_loop peer qpn 0 (record s { staging = update s.staging 0 s.cfg.epoch }) batch

abbrev pub maybe : Option EfaRequest → List EfaRequest
maybe none = []
maybe (some r) = r ∷ []

-- The order on the wire.
unfoldable pub in_order : List CmdRequests → List EfaRequest
in_order [] = []
in_order (r ∷ rs) = r.data_request ∷ r.flag_request ∷ (maybe r.tail_request ++ in_order rs)
