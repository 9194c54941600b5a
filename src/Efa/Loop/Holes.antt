-- ===== src/Efa/Loop/Holes.antt =====
-- The places of the arrival queues that a refused batch has taken.
use m_kernel.Efa.Post.Places.{flag_loop-seq}
use m_kernel.Prelude.{
  ℕ, Bool, u32, List, ◌*◌, ◌≡◌, false, true, ◌<◌, ◌^◌, ◌+◌, ◌∷◌, ap, if◌then◌else◌, ◌∙◌, update,
}
use m_kernel.Efa.{EfaConfig, Peer, Efa, EfaRequest}
use m_kernel.Efa.Loop.{batch_requests, post_efa_batch, peer_of}
use m_kernel.Types.{TransferCmd}
use m_kernel.Efa.Post.{remote_flag_batch, write_imm_batch, in_order, flag_loop, CmdRequests}
use m_kernel.Efa.Post.Places.{on_queue}
use m_kernel.Efa.Loop.Retry.{Refused, post-Refused, post-refused-seq}

efa_queues : EfaConfig → ℕ
efa_queues cfg = u32 (cfg.global_num_qps * cfg.logical_queues_per_qp)

batch_requests-seq :
    (peer : Peer) (qpn q : ℕ) (s : Efa) (batch : List TransferCmd)
    → s.write_imm ≡ false
    → s.cfg.use_arrival_queue ≡ true
    → s.sender_seq q < 2 ^ 32
    → (batch_requests peer qpn s batch).1.sender_seq q
      ≡ u32 (s.sender_seq q + on_queue (efa_queues s.cfg) q batch)
unfolding batch_requests remote_flag_batch efa_queues
batch_requests-seq peer qpn q s batch flags queue small =
    ap
      (λ (b : Bool).
        let made : List EfaRequest × Efa =
          if b then (write_imm_batch s.cfg peer qpn batch, s) else (
            in_order (remote_flag_batch peer qpn s batch).0,
            (remote_flag_batch peer qpn s batch).1,
          ) in
        made.1.sender_seq q)
      flags
    ∙ ap
        (λ (b : Bool).
          let made : List CmdRequests × Efa =
            if b
            then flag_loop peer qpn (efa_queues s.cfg) s batch
            else flag_loop peer qpn 0 (record s { staging = update s.staging 0 s.cfg.epoch })
                batch in
          made.1.sender_seq q)
        queue
    ∙ flag_loop-seq peer qpn (efa_queues s.cfg) q s batch queue small

-- With remote flags in the queue layout: when `ibv_wr_complete` refuses a batch, nothing is posted,
-- but in each logical queue the next place is counted on by the number of the batch's commands for
-- that queue, so the batch, which is kept, takes later places when it is tried again.
pub post-refused-places :
    (accept : ℕ → Bool) (batch_qp q : ℕ) (cmd : TransferCmd) (cmds : List TransferCmd) (s : Efa)
    → s.write_imm ≡ false
    → s.cfg.use_arrival_queue ≡ true
    → s.sender_seq q < 2 ^ 32
    → accept s.calls ≡ false
    → let t : Efa = (post_efa_batch accept batch_qp (cmd ∷ cmds) s).1 in
      (t.posted ≡ s.posted)
      × (t.pending_batch ≡ cmd ∷ cmds)
      × (t.sender_seq q
          ≡ u32 (
              s.sender_seq q
              + on_queue (u32 (s.cfg.global_num_qps * s.cfg.logical_queues_per_qp)) q (cmd ∷ cmds)))
unfolding efa_queues
post-refused-places accept batch_qp q cmd cmds s flags queue small no_answer =
    let r : Refused s batch_qp (cmd ∷ cmds) (post_efa_batch accept batch_qp (cmd ∷ cmds) s) =
      post-Refused accept batch_qp cmd cmds s no_answer in
    let peer : Peer = peer_of s.cfg cmd.dst_rank in
    (
      r.same_posted,
      r.keeps_batch,
      post-refused-seq accept batch_qp cmd cmds s q no_answer
          ∙ batch_requests-seq peer (peer.dst_qpns batch_qp) q s (cmd ∷ cmds) flags queue small,
    )
