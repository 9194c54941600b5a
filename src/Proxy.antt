-- ===== src/Proxy.antt =====
-- include/comm/internode/proxy.h: the CPU thread that turns commands into chained RDMA writes. Here
-- stand its configuration, its state and the work requests; the modules below have its operations.
pub mod WrId
pub mod Route
pub mod Setup
pub mod Barrier
pub mod Strided
pub mod Forward
pub mod Ledger
pub mod Chain
pub mod Kept
pub mod Collect
pub mod Loop
mod Tests
use m_kernel.Prelude.{
  ℕ, suc, ◌+◌, ◌-◌, Option, none, some, List, [], ◌∷◌, ◌++◌, Bool, true, false, ltb, if◌then◌else◌,
}
use m_kernel.Prelude.Int.{ℤ, pos, negsuc, sub_ℕ}
use m_kernel.Types.{TransferCmd, ForwardNotify}

-- An address and key at the peer, with those of each global QP; 0 stands for "not set" there.
pub record Remote : Type 0 where
  pub addr : ℕ
  pub rkey : ℕ
  pub addr_by_qp : ℕ → ℕ
  pub rkey_by_qp : ℕ → ℕ

-- `ProxyConfig`, without pointers to queues and threads. An `int` that is negative stands as 0, as
-- the constructor and the guards treat both alike.
pub record ProxyConfig : Type 0 where
  pub num_qps : ℕ
  pub qp_base_idx : ℕ
  pub global_num_qps : ℕ
  pub local_data_addr : ℕ
  pub local_data_lkey : ℕ
  pub clocal_data_addr : ℕ
  pub clocal_data_lkey : ℕ
  pub direct_dmabuf_enabled : Bool
  pub row_stride_bytes : ℕ
  pub max_send_sge : ℕ
  pub remote_data : Remote
  pub staging_addr : ℕ  -- flag_staging->host_ptr
  pub staging_lkey : ℕ
  pub remote_flags : Remote
  pub remote_tail : Remote
  pub use_arrival_queue : Bool
  pub remote_queue_stride : ℕ
  pub logical_queues_per_qp : ℕ
  pub channelize_gpu_peers : Bool
  pub enable_remote_tail : Bool
  pub remote_barrier : Remote
  pub enable_forward_notify : Bool
  pub has_local_forward_notify : Bool  -- local_forward_notify != nullptr
  pub forward_notify_slots : ℕ
  pub remote_forward_notify : Remote
  pub rank : ℕ
  pub num_nodes : ℕ
  pub total_chunks : ℕ
  pub a_half_bytes : ℕ
  pub epoch : ℕ
  pub max_inflight : ℕ
  pub device_id : ℕ

-- `BATCH_SIZE`
abbrev pub batch_size : ℕ
batch_size = 8

-- `ibv_sge`
pub record Sge : Type 0 where
  pub from_addr : ℕ
  pub bytes_long : ℕ
  pub lkey : ℕ

-- `ibv_send_wr` of an RDMA write; `next` is the order of a list.
pub record WorkRequest : Type 0 where
  pub wr_id : ℕ
  pub sg_list : List Sge
  pub remote_addr : ℕ
  pub key : ℕ
  pub is_inline : Bool  -- IBV_SEND_INLINE
  pub is_signaled : Bool  -- IBV_SEND_SIGNALED

-- One call of `ibv_post_send` that was accepted: the local QP and the chain.
pub record Post : Type 0 where
  pub on_qp : ℕ
  pub chain : List WorkRequest

-- The thread's state. `calls` numbers the calls of `ibv_post_send`; `posted` and `retired` record,
-- for the proofs, the accepted chains in order and the sum of the counts of the completions.
pub record Proxy : Type 0 where
  pub cfg : ProxyConfig
  pub effective_max_inflight : ℕ
  pub inflight : ℤ
  pub qp_rr_idx : ℕ
  pub sender_seq : ℕ → ℕ  -- uint32_t
  pub staging : ℕ → ℕ  -- the words at flag_staging->host_ptr
  pub barrier_token : ℕ
  pub pending : Option TransferCmd  -- pending_cmd_, if has_pending_cmd_
  pub notify_payload : ℕ → ForwardNotify
  pub forward_seen_epoch : ℕ → ℕ
  pub forward_scan_cursor : ℕ
  pub calls : ℕ
  pub posted : List Post
  pub retired : ℕ

-- `fetch_add` and `fetch_sub` of the counter `inflight_`.
unfoldable pub plus : ℤ → ℕ → ℤ
plus (pos n) count = pos (n + count)
plus (negsuc n) count = sub_ℕ count (n + 1)

unfoldable pub minus : ℤ → ℕ → ℤ
minus (pos n) count = sub_ℕ n count
minus (negsuc n) count = negsuc (n + count)

-- `inflight + count < limit`
unfoldable pub below : ℤ → ℕ → ℕ → Bool
below (pos n) count limit = ltb (n + count) limit
below (negsuc n) count limit = ltb count (limit + n + 1)

-- `ibv_post_send`, whose answer to the call with this number is `accept`.
unfoldable pub post_send : (accept : ℕ → Bool) → Proxy → Post → Bool × Proxy
post_send accept s post =
    if accept s.calls
    then (true, record s { calls = suc s.calls; posted = s.posted ++ (post ∷ []) })
    else (false, record s { calls = suc s.calls })

abbrev pub add_inflight : Proxy → ℕ → Proxy
add_inflight s count = record s { inflight = plus s.inflight count }
