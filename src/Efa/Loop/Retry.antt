-- ===== src/Efa/Loop/Retry.antt =====
-- A batch that `ibv_wr_complete` refuses.
use m_kernel.Prelude.{
  ℕ, ◌≡◌, List, if_both, ◌∷◌, length, refl, ◌∙◌, [], Bool, u32, false, if◌then◌else◌, true, ◌*◌,
  suc, update, ◌++◌, ap, sym,
}
use m_kernel.Efa.{Efa, stage, Peer, EfaRequest, wr_complete, EfaPost, EfaConfig}
use m_kernel.Efa.Loop.{batch_requests, peer_of, post_efa_batch}
use m_kernel.Efa.Post.{
  flag_loop, queue_requests, cmd_requests, remote_flag_batch, CmdRequests, efa_has_tail,
}
use m_kernel.Types.{TransferCmd}
use m_kernel.Efa.Post.Counts.{id_sum, write_imm_batch-id_sum, remote_flag_batch-id_sum}
use mathlib.Core.Path.{subst}
use m_kernel.Proxy.{plus}

-- In both notify modes and both layouts, the identifiers of the requests that a batch is posted as
-- add up to the number of its commands, so that its completions take off the counter what the post
-- has added.
pub batch_requests-id_sum :
    (peer : Peer) (qpn : ℕ) (s : Efa) (batch : List TransferCmd)
    → id_sum (batch_requests peer qpn s batch).0 ≡ length batch
unfolding batch_requests remote_flag_batch
batch_requests-id_sum peer qpn s batch =
    if_both (λ (p : List EfaRequest × Efa). id_sum p.0 ≡ length batch) s.write_imm
      (write_imm_batch-id_sum s.cfg peer qpn batch) (remote_flag_batch-id_sum peer qpn s batch)

-- What making the requests leaves alone.
abbrev Kept : Efa → Efa → Type 0
Kept s t =
    (t.inflight ≡ s.inflight)
    × (t.calls ≡ s.calls)
    × (t.posted ≡ s.posted)
    × (t.tails ≡ s.tails)
    × (t.cfg ≡ s.cfg)

queue_requests-Kept :
    (peer : Peer) (qpn total : ℕ) (s : Efa) (cmd : TransferCmd)
    → Kept s (queue_requests peer qpn total s cmd).1
unfolding queue_requests stage
queue_requests-Kept peer qpn total s cmd =
    if_both (λ (p : CmdRequests × Efa). Kept s p.1) (efa_has_tail s.cfg peer)
      (refl, refl, refl, refl, refl) (refl, refl, refl, refl, refl)

flag_loop-Kept :
    (peer : Peer) (qpn total : ℕ) (s : Efa) (cmds : List TransferCmd)
    → Kept s (flag_loop peer qpn total s cmds).1
unfolding flag_loop cmd_requests
flag_loop-Kept peer qpn total s [] = (refl, refl, refl, refl, refl)
flag_loop-Kept peer qpn total s (cmd ∷ cmds) =
    let p : CmdRequests × Efa = cmd_requests peer qpn total s cmd in
    let (a, b, c, d, e) = flag_loop-Kept peer qpn total p.1 cmds in
    let (a', b', c', d', e') =
      if_both (λ (x : CmdRequests × Efa). Kept s x.1) s.cfg.use_arrival_queue
        (queue_requests-Kept peer qpn total s cmd) (refl, refl, refl, refl, refl) in
    (a ∙ a', b ∙ b', c ∙ c', d ∙ d', e ∙ e')

batch_requests-Kept :
    (peer : Peer) (qpn : ℕ) (s : Efa) (batch : List TransferCmd)
    → Kept s (batch_requests peer qpn s batch).1
unfolding batch_requests remote_flag_batch
batch_requests-Kept peer qpn s batch =
    if_both (λ (p : List EfaRequest × Efa). Kept s p.1) s.write_imm (refl, refl, refl, refl, refl)
      (if_both (λ (p : List CmdRequests × Efa). Kept s p.1) s.cfg.use_arrival_queue
        (flag_loop-Kept peer qpn (u32 (s.cfg.global_num_qps * s.cfg.logical_queues_per_qp)) s batch)
        (flag_loop-Kept peer qpn 0 (record s { staging = update s.staging 0 s.cfg.epoch }) batch))

wr_complete-refused :
    (accept : ℕ → Bool) (s : Efa) (post : EfaPost)
    → accept s.calls ≡ false
    → wr_complete accept s post ≡ (false, record s { calls = suc s.calls })
unfolding wr_complete
wr_complete-refused accept s post h =
    ap
      (λ (b : Bool).
        if b
        then (true, record s { calls = suc s.calls; posted = s.posted ++ (post ∷ []) })
        else (false, record s { calls = suc s.calls }))
      h

wr_complete-accepted :
    (accept : ℕ → Bool) (s : Efa) (post : EfaPost)
    → accept s.calls ≡ true
    → wr_complete accept s post
      ≡ (true, record s { calls = suc s.calls; posted = s.posted ++ (post ∷ []) })
unfolding wr_complete
wr_complete-accepted accept s post h =
    ap
      (λ (b : Bool).
        if b
        then (true, record s { calls = suc s.calls; posted = s.posted ++ (post ∷ []) })
        else (false, record s { calls = suc s.calls }))
      h

-- The peer of a batch: that of its first command.
abbrev pub batch_peer : EfaConfig → List TransferCmd → Peer
batch_peer cfg [] = cfg.per_peer 0
batch_peer cfg (cmd ∷ cmds) = peer_of cfg cmd.dst_rank

-- A refused post keeps the batch and its QP, and changes neither the counter nor the wire.
pub record Refused (s : Efa) (batch_qp : ℕ) (batch : List TransferCmd) (p : Bool × Efa)
    : Type 0 where
  pub not_posted : p.0 ≡ false
  pub keeps_batch : p.1.pending_batch ≡ batch
  pub keeps_qp : p.1.pending_batch_qp ≡ batch_qp
  pub same_inflight : p.1.inflight ≡ s.inflight
  pub same_posted : p.1.posted ≡ s.posted
  pub one_call : p.1.calls ≡ suc s.calls
  pub same_tails : p.1.tails ≡ s.tails
  pub same_cfg : p.1.cfg ≡ s.cfg

-- An accepted one is on the wire as one post, whose identifiers count its commands.
pub record Accepted (s : Efa) (batch_qp : ℕ) (batch : List TransferCmd) (p : Bool × Efa)
    : Type 0 where
  pub is_posted : p.0 ≡ true
  pub post : EfaPost
  pub on_wire : p.1.posted ≡ s.posted ++ (post ∷ [])
  pub own_qp : post.on_qp ≡ batch_qp
  pub made_by :
      post.requests
      ≡ (batch_requests
          (batch_peer s.cfg batch)
          ((batch_peer s.cfg batch).dst_qpns batch_qp)
          s
          batch).0
  pub counts : id_sum post.requests ≡ length batch
  pub counted : p.1.inflight ≡ plus s.inflight (length batch)
  pub nothing_kept : p.1.pending_batch ≡ []

-- The end of a post, for the answer of `ibv_wr_complete`.
after_answer : ℕ → List TransferCmd → Bool × Efa → Bool × Efa
after_answer batch_qp batch p =
    if p.0
    then (true, record p.1 { inflight = plus p.1.inflight (length batch); pending_batch = [] })
    else (false, record p.1 { pending_batch = batch; pending_batch_qp = batch_qp })

module _ (accept : ℕ → Bool) (batch_qp : ℕ) (cmd : TransferCmd) (cmds : List TransferCmd)
    (s : Efa) where
  to_peer : Peer
  to_peer = peer_of s.cfg cmd.dst_rank

  made : List EfaRequest × Efa
  made = batch_requests to_peer (to_peer.dst_qpns batch_qp) s (cmd ∷ cmds)

  this_post : EfaPost
  this_post = record { on_qp = batch_qp; requests = made.0 }

  posts :
      post_efa_batch accept batch_qp (cmd ∷ cmds) s
      ≡ after_answer batch_qp (cmd ∷ cmds) (wr_complete accept made.1 this_post)
  unfolding post_efa_batch to_peer made this_post after_answer
  posts = refl

  made-Kept : Kept s made.1
  unfolding made
  made-Kept = batch_requests-Kept to_peer (to_peer.dst_qpns batch_qp) s (cmd ∷ cmds)

  pub post-refused-seq :
      (q : ℕ)
      → accept s.calls ≡ false
      → (post_efa_batch accept batch_qp (cmd ∷ cmds) s).1.sender_seq q
        ≡ (batch_requests
              (peer_of s.cfg cmd.dst_rank)
              ((peer_of s.cfg cmd.dst_rank).dst_qpns batch_qp)
              s
              (cmd ∷ cmds)).1.sender_seq
            q
  unfolding after_answer made to_peer
  post-refused-seq q h =
      ap (λ (p : Bool × Efa). p.1.sender_seq q)
        (posts
          ∙ ap (after_answer batch_qp (cmd ∷ cmds))
              (wr_complete-refused accept made.1 this_post (ap accept made-Kept.1 ∙ h)))

  pub post-Refused :
      accept s.calls ≡ false
      → Refused s batch_qp (cmd ∷ cmds) (post_efa_batch accept batch_qp (cmd ∷ cmds) s)
  unfolding after_answer
  post-Refused h =
      subst (Refused s batch_qp (cmd ∷ cmds))
        (sym (
          posts
          ∙ ap (after_answer batch_qp (cmd ∷ cmds))
              (wr_complete-refused accept made.1 this_post (ap accept made-Kept.1 ∙ h))))
        (record {
          not_posted = refl;
          keeps_batch = refl;
          keeps_qp = refl;
          same_inflight = made-Kept.0;
          same_posted = made-Kept.2;
          one_call = ap suc made-Kept.1;
          same_tails = made-Kept.3;
          same_cfg = made-Kept.4;
        })

  pub post-Accepted :
      accept s.calls ≡ true
      → Accepted s batch_qp (cmd ∷ cmds) (post_efa_batch accept batch_qp (cmd ∷ cmds) s)
  unfolding after_answer this_post made to_peer
  post-Accepted h =
      subst (Accepted s batch_qp (cmd ∷ cmds))
        (sym (
          posts
          ∙ ap (after_answer batch_qp (cmd ∷ cmds))
              (wr_complete-accepted accept made.1 this_post (ap accept made-Kept.1 ∙ h))))
        (record {
          is_posted = refl;
          post = this_post;
          on_wire = ap (λ l. l ++ (this_post ∷ [])) made-Kept.2;
          own_qp = refl;
          made_by = refl;
          counts = batch_requests-id_sum to_peer (to_peer.dst_qpns batch_qp) s (cmd ∷ cmds);
          counted = ap (λ n. plus n (length (cmd ∷ cmds))) made-Kept.0;
          nothing_kept = refl;
        })
