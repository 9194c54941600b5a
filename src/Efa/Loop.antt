-- ===== src/Efa/Loop.antt =====
-- A turn of the EFA proxy's loop.
pub mod Retry
pub mod Turns
pub mod Holes
use m_kernel.Proxy.{plus}
use m_kernel.Prelude.Int.{pos, negsuc}
use m_kernel.Prelude.{
  ℕ, Bool, List, [], if◌then◌else◌, none, ◌&&◌, Option, length, ltb, some, update, ◌∷◌, false, ◌+◌,
  ◌==◌, not, ◌%◌, true,
}
use m_kernel.Efa.{Efa, EfaConfig, Peer, EfaRequest, wr_complete, active_fifo}
use m_kernel.Efa.Collect.{EfaCollected, drain_and_notify, efa_collect, is_some}
use m_kernel.Types.{TransferCmd}
use m_kernel.Prelude.Int.{pos, negsuc}
use m_kernel.Efa.Drain.{complete_all}
use m_kernel.Efa.Post.{write_imm_batch, remote_flag_batch, in_order}
use m_kernel.Proxy.{plus}

-- The next ring in turn, if there are several.
unfoldable pub rotate_fifo : Efa → Efa
rotate_fifo s =
    if ltb 1 s.cfg.num_fifos
    then record s { current_fifo_idx = (s.current_fifo_idx + 1) % s.cfg.num_fifos }
    else s

-- The peer of a batch for rank `r`.
unfoldable pub peer_of : EfaConfig → ℕ → Peer
peer_of cfg r = elim cfg.peer_slot_by_rank [
  | none ↦ cfg.per_peer 0
  | some slot_of ↦ elim (slot_of r) [ pos slot ↦ cfg.per_peer slot | negsuc _ ↦ cfg.per_peer 0 ]
]

-- The requests of a batch in the proxy's notify mode.
unfoldable pub batch_requests : Peer → (qpn : ℕ) → Efa → List TransferCmd → List EfaRequest × Efa
batch_requests peer qpn s batch =
    if s.write_imm
    then (write_imm_batch s.cfg peer qpn batch, s)
    else (let (rs, t) = remote_flag_batch peer qpn s batch in (in_order rs, t))

-- Step 2, and whether the batch was posted. A batch that the queue refuses is kept for another try.
unfoldable pub post_efa_batch :
    (accept : ℕ → Bool) → (batch_qp : ℕ) → List TransferCmd → Efa → Bool × Efa
post_efa_batch accept batch_qp [] s = (false, s)
post_efa_batch accept batch_qp (cmd ∷ cmds) s =
    let batch : List TransferCmd = cmd ∷ cmds in
    let peer : Peer = peer_of s.cfg cmd.dst_rank in
    let (requests, t) = batch_requests peer (peer.dst_qpns batch_qp) s batch in
    let (ok, u) = wr_complete accept t (record { on_qp = batch_qp; requests = requests }) in
    if ok
    then (true, record u { inflight = plus u.inflight (length batch); pending_batch = [] })
    else (false, record u { pending_batch = batch; pending_batch_qp = batch_qp })

-- Step 3: a poll of the completion queue.
unfoldable pub poll_completions : Efa → Efa
poll_completions s = elim s.cq [ [] ↦ s | cs ∷ later ↦ complete_all cs (record s { cq = later }) ]

-- Step 4
unfoldable pub advance_tail : Bool → Efa → Efa
advance_tail posted s =
    if posted then record s { tails = update s.tails (active_fifo s) s.pending_cpu_head } else s

unfoldable pub finish : (accept : ℕ → Bool) → EfaCollected → EfaCollected
finish accept c =
    let (posted, t) = post_efa_batch accept c.batch_qp c.batch c.state in
    record c { state = advance_tail posted (poll_completions t) }

-- The barrier that waits for the batch before it goes first when nothing else waits.
unfoldable pub barrier_due : Efa → Bool
barrier_due s =
    s.has_pending_barrier && (length s.pending_batch == 0) && not (is_some s.pending_cmd)

-- A turn, for what the polls of the ring find; the result has the batch that was posted, or tried.
unfoldable pub efa_turn : (accept : ℕ → Bool) → List (Option TransferCmd) → Efa → EfaCollected
efa_turn accept polls s =
    if barrier_due s
    then record {
      state = drain_and_notify accept (record s { has_pending_barrier = false });
      batch = [];
      batch_qp = 0;
      polls = polls;
    }
    else if ltb 0 (length s.pending_batch)
    then finish accept (record {
      state = s;
      batch = s.pending_batch;
      batch_qp = s.pending_batch_qp;
      polls = polls;
    })
    else finish accept (efa_collect accept s.inflight polls (rotate_fifo s))
