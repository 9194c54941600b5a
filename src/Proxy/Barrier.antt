-- ===== src/Proxy/Barrier.antt =====
-- `post_stage_barrier`: one inline write of the token for each peer that the proxy can reach.
use m_kernel.Prelude.{
  ℕ, ◌+◌, ◌-◌, ◌*◌, ◌/◌, ltb, leb, if◌then◌else◌, Bool, true, ◌&&◌, u64, suc, ◌∷◌, [], zero,
}
use m_kernel.Proxy.{Proxy, ProxyConfig, WorkRequest, post_send, add_inflight}
use m_kernel.Proxy.WrId.{encode_wr_id}

-- One block of QPs for each peer, where the QPs are channels to peers and there are enough.
unfoldable pub barrier_channelize : ProxyConfig → Bool
barrier_channelize cfg =
    let n_peers : ℕ = cfg.num_nodes - 1 in
    cfg.channelize_gpu_peers && ltb 1 n_peers && leb n_peers cfg.num_qps

unfoldable pub barrier_iters : ProxyConfig → ℕ
barrier_iters cfg = if barrier_channelize cfg then cfg.num_nodes - 1 else 1

-- The QP of the peer `p`: the first one of its block.
unfoldable pub barrier_qp : ProxyConfig → ℕ → ℕ
barrier_qp cfg p = if barrier_channelize cfg then p * (cfg.num_qps / (cfg.num_nodes - 1)) else 0

-- `token_at` is the address of `barrier_token_`.
unfoldable pub barrier_wr : (token_at : ℕ) → ProxyConfig → ℕ → ℕ → WorkRequest
barrier_wr token_at cfg slot p =
    let qp_idx : ℕ = barrier_qp cfg p in
    record {
      wr_id = encode_wr_id qp_idx 1;
      sg_list = record { from_addr = token_at; bytes_long = 4; lkey = 0 } ∷ [];
      remote_addr = u64 (
          (if barrier_channelize cfg
            then cfg.remote_barrier.addr_by_qp qp_idx
            else cfg.remote_barrier.addr)
          + slot * 4);
      key =
          if barrier_channelize cfg
          then cfg.remote_barrier.rkey_by_qp qp_idx
          else cfg.remote_barrier.rkey;
      is_inline = true;
      is_signaled = true;
    }

module _ (accept : ℕ → Bool) (token_at : ℕ) where
  -- The loop, from the peer `p` on, with `left` peers to go; a refused post is skipped.
  unfoldable pub barrier_loop : ℕ → ℕ → ℕ → Proxy → Proxy
  barrier_loop slot zero p s = s
  barrier_loop slot (suc left) p s =
      let (ok, t) =
        post_send accept s
          (record { on_qp = barrier_qp s.cfg p; chain = barrier_wr token_at s.cfg slot p ∷ [] }) in
      barrier_loop slot left (p + 1) (if ok then add_inflight t 1 else t)

  unfoldable pub post_stage_barrier : ℕ → ℕ → Proxy → Proxy
  post_stage_barrier slot token s =
      barrier_loop slot (barrier_iters s.cfg) 0 (record s { barrier_token = token })
