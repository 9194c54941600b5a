-- ===== src/Efa.antt =====
-- include/comm/internode/proxy_efa.h: the proxy thread for EFA, whose requests are datagrams to an
-- address handle and a QP number. Here stand its configuration, its state and its requests; the
-- modules below have its operations.
pub mod Setup
pub mod Post
pub mod Drain
pub mod Collect
pub mod Loop
mod Tests
use m_kernel.Prelude.{
  ℕ, suc, Option, List, [], ◌∷◌, ◌++◌, Bool, true, false, if◌then◌else◌, update, ◌%◌, u32, ◌+◌, ltb,
  ◌&&◌,
}
use m_kernel.Prelude.Int.{ℤ}
use m_kernel.Types.{TransferCmd}

-- `PerPeerProxyData`
pub record Peer : Type 0 where
  pub dst_ah : ℕ
  pub dst_qpns : ℕ → ℕ
  pub remote_data_addr : ℕ
  pub remote_data_rkey : ℕ
  pub remote_flags_addr : ℕ
  pub remote_flags_rkey : ℕ
  pub remote_tail_addr : ℕ
  pub remote_tail_rkey : ℕ
  pub remote_barrier_addr : ℕ
  pub remote_barrier_rkey : ℕ

-- `ProxyConfig`, as far as the code reads it. An `int` that is negative stands as 0, as the
-- constructor and the guards treat both alike.
pub record EfaConfig : Type 0 where
  pub num_fifos : ℕ
  pub has_fifos : Bool  -- fifos != nullptr
  pub num_qps : ℕ
  pub global_num_qps : ℕ
  pub logical_queues_per_qp : ℕ
  pub local_data_addr : ℕ
  pub local_data_lkey : ℕ
  pub clocal_data_addr : ℕ
  pub clocal_data_lkey : ℕ
  pub direct_dmabuf_enabled : Bool
  pub local_arrival_count : ℕ  -- 0 if local_arrival_host_ptr == nullptr
  pub has_staging : Bool  -- flag_staging and its memory region are set
  pub staging_addr : ℕ  -- flag_staging->host_ptr
  pub staging_lkey : ℕ
  pub staging_count : ℕ
  pub use_arrival_queue : Bool
  pub remote_queue_stride : ℕ
  pub enable_remote_tail : Bool
  pub epoch : ℕ
  pub max_inflight : ℕ
  pub sq_depth : ℕ
  pub pipeline_enabled : Bool
  pub num_peers : ℕ  -- 0 if per_peer == nullptr
  pub per_peer : ℕ → Peer
  pub peer_slot_by_rank : Option (ℕ → ℤ)

-- The memory that a request reads.
pub record Source : Type 0 where
  pub at_addr : ℕ
  pub size : ℕ
  pub lkey : ℕ

-- A request between `ibv_wr_start` and `ibv_wr_complete`; all of them are signaled.
pub record EfaRequest : Type 0 where
  pub wr_id : ℕ
  pub remote_addr : ℕ
  pub rkey : ℕ
  pub imm : Option ℕ  -- the immediate value, before `htonl`
  pub to_ah : ℕ
  pub to_qpn : ℕ
  pub source : Source

-- One accepted `ibv_wr_complete`: the local QP and the requests since `ibv_wr_start`.
pub record EfaPost : Type 0 where
  pub on_qp : ℕ
  pub requests : List EfaRequest

-- What the completion queue returns of a request, or of an immediate value from a peer.
pub record Completion : Type 0 where
  pub done_id : ℕ
  pub is_recv_imm : Bool  -- opcode == IBV_WC_RECV_RDMA_WITH_IMM
  pub imm_data : ℕ  -- after `ntohl`

-- The thread's state, with the locals of `run` that live from turn to turn. `cq` has what successive
-- polls of the completion queue return, and `calls` numbers the calls of `ibv_wr_complete`, of which
-- `posted` records the accepted ones.
pub record Efa : Type 0 where
  pub cfg : EfaConfig
  pub write_imm : Bool  -- notify_mode_ == WriteImm
  pub effective_max_inflight : ℕ
  pub inflight : ℤ
  pub sender_seq : ℕ → ℕ  -- uint32_t
  pub staging_cursor : ℕ  -- uint32_t
  pub staging : ℕ → ℕ  -- the words at flag_staging->host_ptr
  pub pending_cmd : Option TransferCmd
  pub has_pending_barrier : Bool
  pub batch_size_current : ℕ
  pub accum_spins_current : ℕ
  pub pending_batch : List TransferCmd
  pub pending_batch_qp : ℕ
  pub pending_cpu_head : ℕ
  pub current_fifo_idx : ℕ
  pub cpu_heads : ℕ → ℕ  -- of each ring
  pub tails : ℕ → ℕ  -- of each ring
  pub arrivals : ℕ → ℕ  -- the words at local_arrival_host_ptr
  pub cq : List (List Completion)
  pub calls : ℕ
  pub posted : List EfaPost

-- `BATCH_SIZE`, `ACCUMULATE_SPINS`, `ACCUMULATE_MISS_BUDGET` and `SRD_SQ_DEPTH`
abbrev pub efa_batch_size : ℕ
efa_batch_size = 8

abbrev pub accumulate_spins : ℕ
accumulate_spins = 128

abbrev pub miss_budget : ℕ
miss_budget = 8

abbrev pub srd_sq_depth : ℕ
srd_sq_depth = 512

-- `ibv_wr_complete`, whose answer to the call with this number is `accept`.
unfoldable pub wr_complete : (accept : ℕ → Bool) → Efa → EfaPost → Bool × Efa
wr_complete accept s post =
    if accept s.calls
    then (true, record s { calls = suc s.calls; posted = s.posted ++ (post ∷ []) })
    else (false, record s { calls = suc s.calls })

-- The ring that `fifo()` stands for.
abbrev pub active_fifo : Efa → ℕ
active_fifo s = if ltb 1 s.cfg.num_fifos && s.cfg.has_fifos then s.current_fifo_idx else 0

-- The value of `staging_cursor_++`, as a slot of the staging memory.
abbrev pub staging_slot : Efa → ℕ
staging_slot s = s.staging_cursor % s.cfg.staging_count

-- `staging_cursor_++`, and a word stored in the slot.
unfoldable pub stage : Efa → ℕ → Efa
stage s word = record s {
  staging = update s.staging (staging_slot s) word;
  staging_cursor = u32 (s.staging_cursor + 1);
}
