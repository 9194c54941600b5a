-- ===== src/Efa/Post/Counts.antt =====
-- The identifiers of the requests of a batch add up to the number of its commands.
use m_kernel.Prelude.{
  ℕ, List, ◌∷◌, ◌++◌, ◌+◌, ◌≡◌, [], arith, if_both, length, refl, u32, ◌*◌, update,
}
use m_kernel.Efa.Post.{
  CmdRequests, flag_loop, flat_requests, in_order, queue_requests, write_imm_batch, efa_data,
  efa_word, maybe, efa_has_tail, cmd_requests, remote_flag_batch,
}
use m_kernel.Efa.{Peer, Efa, EfaRequest, EfaConfig}
use m_kernel.Types.{TransferCmd}

-- The sum of the identifiers.
unfoldable pub id_sum : List EfaRequest → ℕ
id_sum [] = 0
id_sum (r ∷ rs) = r.wr_id + id_sum rs

id_sum-append : (xs ys : List EfaRequest) → id_sum (xs ++ ys) ≡ id_sum xs + id_sum ys
unfolding id_sum
id_sum-append [] ys = omega arith
id_sum-append (x ∷ xs) ys = omega (arith, id_sum-append xs ys)

pub write_imm_batch-id_sum :
    (cfg : EfaConfig) (peer : Peer) (qpn : ℕ) (cmds : List TransferCmd)
    → id_sum (write_imm_batch cfg peer qpn cmds) ≡ length cmds
unfolding write_imm_batch id_sum efa_data
write_imm_batch-id_sum cfg peer qpn [] = refl
write_imm_batch-id_sum cfg peer qpn (cmd ∷ cmds) =
    omega (arith, write_imm_batch-id_sum cfg peer qpn cmds)

-- The requests of one command count for one.
abbrev CountsOne : CmdRequests → Type 0
CountsOne r = id_sum (r.data_request ∷ r.flag_request ∷ maybe r.tail_request) ≡ 1

queue_requests-CountsOne :
    (peer : Peer) (qpn total : ℕ) (s : Efa) (cmd : TransferCmd)
    → CountsOne (queue_requests peer qpn total s cmd).0
unfolding queue_requests id_sum efa_data efa_word
queue_requests-CountsOne peer qpn total s cmd =
    if_both (λ (r : CmdRequests × Efa). CountsOne r.0) (efa_has_tail s.cfg peer) refl refl

flat_requests-CountsOne :
    (cfg : EfaConfig) (peer : Peer) (qpn : ℕ) (cmd : TransferCmd)
    → CountsOne (flat_requests cfg peer qpn cmd)
unfolding flat_requests id_sum efa_data efa_word
flat_requests-CountsOne cfg peer qpn cmd = refl

in_order-cons :
    (r : CmdRequests) (rs : List CmdRequests)
    → CountsOne r
    → id_sum (in_order (r ∷ rs)) ≡ 1 + id_sum (in_order rs)
unfolding in_order id_sum
in_order-cons r rs one = omega (arith, id_sum-append (maybe r.tail_request) (in_order rs))

in_order-nil : id_sum (in_order []) ≡ 0
unfolding id_sum in_order
in_order-nil = refl

cmd_requests-CountsOne :
    (peer : Peer) (qpn total : ℕ) (s : Efa) (cmd : TransferCmd)
    → CountsOne (cmd_requests peer qpn total s cmd).0
unfolding cmd_requests
cmd_requests-CountsOne peer qpn total s cmd =
    if_both (λ (r : CmdRequests × Efa). CountsOne r.0) s.cfg.use_arrival_queue
      (queue_requests-CountsOne peer qpn total s cmd) (flat_requests-CountsOne s.cfg peer qpn cmd)

flag_loop-id_sum :
    (peer : Peer) (qpn total : ℕ) (s : Efa) (cmds : List TransferCmd)
    → id_sum (in_order (flag_loop peer qpn total s cmds).0) ≡ length cmds
unfolding flag_loop
flag_loop-id_sum peer qpn total s [] = in_order-nil
flag_loop-id_sum peer qpn total s (cmd ∷ cmds) =
    let (r, t) = cmd_requests peer qpn total s cmd in
    omega (
      arith,
      in_order-cons r (flag_loop peer qpn total t cmds).0
          (cmd_requests-CountsOne peer qpn total s cmd),
      flag_loop-id_sum peer qpn total t cmds,
    )

pub remote_flag_batch-id_sum :
    (peer : Peer) (qpn : ℕ) (s : Efa) (batch : List TransferCmd)
    → id_sum (in_order (remote_flag_batch peer qpn s batch).0) ≡ length batch
unfolding remote_flag_batch
remote_flag_batch-id_sum peer qpn s batch =
    if_both (λ (p : List CmdRequests × Efa). id_sum (in_order p.0) ≡ length batch)
      s.cfg.use_arrival_queue
      (flag_loop-id_sum peer qpn (u32 (s.cfg.global_num_qps * s.cfg.logical_queues_per_qp)) s batch)
      (flag_loop-id_sum peer qpn 0 (record s { staging = update s.staging 0 s.cfg.epoch }) batch)
