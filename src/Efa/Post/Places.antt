-- ===== src/Efa/Post/Places.antt =====
-- The places that a batch takes of its logical queues.
use m_kernel.Prelude.{
  ℕ, List, ◌∷◌, ◌≡◌, if_both, if◌then◌else◌, true, update, ◌<◌, u32, ◌==◌, ◌^◌, refl, ◌+◌, [],
  arith, ap, sym, ◌∙◌,
}
use m_kernel.Efa.Post.{flag_loop, queue_requests, CmdRequests, cmd_requests, efa_has_tail}
use m_kernel.Efa.{Peer, Efa, stage}
use m_kernel.Types.{TransferCmd}
use m_kernel.Proxy.Strided.{logical_queue}
use mathlib.Core.Path.{subst}
use m_kernel.Efa.Post.Staging.{cmd_requests-queue}

-- How many commands of a batch go to the logical queue `q`.
unfoldable pub on_queue : (total q : ℕ) → List TransferCmd → ℕ
on_queue total q [] = 0
on_queue total q (cmd ∷ cmds) =
    (if logical_queue total cmd == q then 1 else 0) + on_queue total q cmds

queue_requests-seq :
    (peer : Peer) (qpn total q : ℕ) (s : Efa) (cmd : TransferCmd)
    → (queue_requests peer qpn total s cmd).1.sender_seq
      ≡ update s.sender_seq
          (logical_queue total cmd)
          (u32 (s.sender_seq (logical_queue total cmd) + 1))
unfolding queue_requests stage
queue_requests-seq peer qpn total q s cmd =
    if_both
      (λ (p : CmdRequests × Efa).
        p.1.sender_seq
        ≡ update s.sender_seq (logical_queue total cmd)
            (u32 (s.sender_seq (logical_queue total cmd) + 1)))
      (efa_has_tail s.cfg peer) refl refl

queue_requests-cfg :
    (peer : Peer) (qpn total : ℕ) (s : Efa) (cmd : TransferCmd)
    → (queue_requests peer qpn total s cmd).1.cfg ≡ s.cfg
unfolding queue_requests stage
queue_requests-cfg peer qpn total s cmd =
    if_both (λ (p : CmdRequests × Efa). p.1.cfg ≡ s.cfg) (efa_has_tail s.cfg peer) refl refl

update-next :
    (f : ℕ → ℕ) (a b : ℕ) → update f a (u32 (f a + 1)) b ≡ (if a == b then u32 (f b + 1) else f b)
update-next f a b = ground arith

-- One command moves on the number of its queue.
cmd_requests-seq :
    (peer : Peer) (qpn total q : ℕ) (s : Efa) (cmd : TransferCmd)
    → s.cfg.use_arrival_queue ≡ true
    → ((cmd_requests peer qpn total s cmd).1.sender_seq q
        ≡ (if logical_queue total cmd == q then u32 (s.sender_seq q + 1) else s.sender_seq q))
      × ((cmd_requests peer qpn total s cmd).1.cfg ≡ s.cfg)
cmd_requests-seq peer qpn total q s cmd queue =
    subst
      (λ (p : CmdRequests × Efa).
        (p.1.sender_seq q
          ≡ (if logical_queue total cmd == q then u32 (s.sender_seq q + 1) else s.sender_seq q))
        × (p.1.cfg ≡ s.cfg))
      (sym (cmd_requests-queue peer qpn total s cmd queue))
      (
        ap (λ f. f q) (queue_requests-seq peer qpn total q s cmd)
            ∙ update-next s.sender_seq (logical_queue total cmd) q,
        queue_requests-cfg peer qpn total s cmd,
      )

pub flag_loop-seq :
    (peer : Peer) (qpn total q : ℕ) (s : Efa) (cmds : List TransferCmd)
    → s.cfg.use_arrival_queue ≡ true
    → s.sender_seq q < 2 ^ 32
    → (flag_loop peer qpn total s cmds).1.sender_seq q
      ≡ u32 (s.sender_seq q + on_queue total q cmds)
unfolding flag_loop on_queue
flag_loop-seq peer qpn total q s [] queue small = omega arith
flag_loop-seq peer qpn total q s (cmd ∷ cmds) queue small =
    let t : Efa = (cmd_requests peer qpn total s cmd).1 in
    let (one, same) = cmd_requests-seq peer qpn total q s cmd queue in
    let ih : (flag_loop peer qpn total t cmds).1.sender_seq q
        ≡ u32 (t.sender_seq q + on_queue total q cmds) =
      flag_loop-seq peer qpn total q t cmds (ap (λ c. c.use_arrival_queue) same ∙ queue)
        (ground arith) in
    ih ∙ ground arith
