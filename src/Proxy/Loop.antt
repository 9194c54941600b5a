-- ===== src/Proxy/Loop.antt =====
-- One turn of the proxy's loop, and the draining of completions.
mod Still
pub mod Posting
mod Strides
pub mod Forwards
mod Keeping
pub mod Balance
pub mod Runs
use m_kernel.Prelude.{
  ℕ, zero, suc, ◌+◌, ◌*◌, ◌%◌, ltb, leb, ◌==◌, if◌then◌else◌, Bool, true, false, ◌&&◌, Option, none,
  some, List, [], ◌∷◌, length, u32,
}
use m_kernel.Prelude.Int.{ℤ, pos, negsuc}
use m_kernel.Types.{TransferCmd, ForwardNotify}
use m_kernel.Proxy.{Proxy, ProxyConfig, Post, post_send, add_inflight, below, minus}
use m_kernel.Proxy.WrId.{decode_wr_count}
use m_kernel.Proxy.Strided.{post_strided_direct}
use m_kernel.Proxy.Forward.{poll_forward_notifications}
use m_kernel.Proxy.Chain.{build_chain}
use m_kernel.Proxy.Collect.{Collected, collect}

-- What lies outside the program, as one turn of the loop meets it: the answers of `ibv_post_send`,
-- the addresses of `barrier_token_` and of the payloads of notifications, the table of
-- notifications, what successive polls of the ring return up to the first that finds nothing, and
-- the identifiers that the poll of the completion queue returns.
pub record World : Type 0 where
  pub accept : ℕ → Bool
  pub token_at : ℕ
  pub payload_at : ℕ → ℕ
  pub table : ℕ → ForwardNotify
  pub arriving : List TransferCmd
  pub completions : List ℕ

-- `(uint32_t)(global_num_qps * logical_queues_per_qp)`
abbrev pub total_logical_queues : ProxyConfig → ℕ
total_logical_queues cfg = u32 (cfg.global_num_qps * cfg.logical_queues_per_qp)

-- The number of requests posted for gathers, the other commands, and the state.
pub record Filtered : Type 0 where
  pub strided_posted : ℕ
  pub others : List TransferCmd
  pub state : Proxy

-- The commands with `src_view == 2` are posted one by one, and the others stay.
unfoldable pub filter_strided : (accept : ℕ → Bool) → ℕ → List TransferCmd → Proxy → Filtered
filter_strided accept qp [] s = record { strided_posted = 0; others = []; state = s }
filter_strided accept qp (cmd ∷ cmds) s = elim (cmd.src_view == 2) [
  | true ↦
      let (k, t) = post_strided_direct accept s cmd qp (total_logical_queues s.cfg) in
      let r : Filtered = filter_strided accept qp cmds t in
      record r { strided_posted = k + r.strided_posted }
  | false ↦
      let r : Filtered = filter_strided accept qp cmds s in record r { others = cmd ∷ r.others }
]

unfoldable pub prefilter : (accept : ℕ → Bool) → ℕ → List TransferCmd → Proxy → Filtered
prefilter accept qp batch s =
    if ltb 0 (length batch) && s.cfg.direct_dmabuf_enabled
    then filter_strided accept qp batch s
    else record { strided_posted = 0; others = batch; state = s }

-- The round robin over the QPs, in the flat layout.
unfoldable pub next_qp : Proxy → Proxy
next_qp s =
    if s.cfg.use_arrival_queue
    then s
    else record s { qp_rr_idx = (s.qp_rr_idx + 1) % s.cfg.num_qps }

-- The chain of a batch, posted in one call.
unfoldable pub post_batch :
    (accept : ℕ → Bool) → (payload_at : ℕ → ℕ) → ℕ → List TransferCmd → Proxy → Proxy
post_batch accept payload_at qp [] s = s
post_batch accept payload_at qp (cmd ∷ cmds) s =
    let batch : List TransferCmd = cmd ∷ cmds in
    let (wrs, t) = build_chain payload_at (total_logical_queues s.cfg) qp (length batch) s batch in
    let (ok, u) = post_send accept t (record { on_qp = qp; chain = wrs }) in
    next_qp (if ok then add_inflight u (length batch) else u)

-- Each completion takes its count off, whatever its status.
unfoldable pub retire : List ℕ → Proxy → Proxy
retire [] s = s
retire (wr_id ∷ wr_ids) s = retire wr_ids (record s {
  inflight = minus s.inflight (decode_wr_count wr_id);
  retired = s.retired + decode_wr_count wr_id;
})

-- The state after a turn, what the ring still holds, and whether its tail is advanced to the cursor.
pub record Turned : Type 0 where
  pub state : Proxy
  pub rest : List TransferCmd
  pub advances : Bool

unfoldable pub forwarded : World → Proxy → Proxy
forwarded w s =
    if below s.inflight 0 s.effective_max_inflight
    then poll_forward_notifications w.accept w.table s
    else s

-- The steps of one turn.
unfoldable pub collected : World → Proxy → Collected
collected w s = collect w.accept w.token_at s.inflight w.arriving s

unfoldable pub turn : World → Proxy → Turned
turn w s =
    let c : Collected = collected w (forwarded w s) in
    let f : Filtered = prefilter w.accept c.batch_qp c.batch c.state in
    let t : Proxy = post_batch w.accept w.payload_at c.batch_qp f.others f.state in
    let u : Proxy = if ltb 0 f.strided_posted then add_inflight t f.strided_posted else t in
    record { state = retire w.completions u; rest = c.rest; advances = ltb 0 (length f.others) }

-- `inflight_ > 0`
unfoldable pub is_busy : ℤ → Bool
is_busy (pos n) = ltb 0 n
is_busy (negsuc n) = false

-- `drain_cq`, for what the next polls of the completion queue return: the state in which the loop
-- ends and the polls that are not done yet, or `none` if the loop still waits after all these polls.
-- An empty poll is the empty list.
unfoldable pub drain_cq : List (List ℕ) → Proxy → Option (Proxy × List (List ℕ))
drain_cq [] s = if is_busy s.inflight then none else some (s, [])
drain_cq (wr_ids ∷ polls) s = elim (is_busy s.inflight) [
  | true ↦ drain_cq polls (retire wr_ids s)
  | false ↦ some (s, wr_ids ∷ polls)
]
