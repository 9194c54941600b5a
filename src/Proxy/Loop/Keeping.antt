-- ===== src/Proxy/Loop/Keeping.antt =====
-- What the posting of gathers and of the batch leaves alone.
use m_kernel.Prelude.{
  ℕ, List, [], ◌∷◌, Bool, ◌≡◌, if_both, Bool-cases, length, u32, ◌<◌, ◌==◌, ◌≤◌, arith, ltb, ◌||◌,
  inl, ◌&&◌, inr, ap, mod-lt, refl, ◌+◌,
}
use m_kernel.Types.{TransferCmd}
use m_kernel.Proxy.{Proxy, Post, post_send, ProxyConfig}
use m_kernel.Proxy.Kept.{Kept, Kept-refl, Kept-trans, post_send-Kept, counted-Kept}
use m_kernel.Proxy.Strided.{post_strided_direct, strided_tail, n_data_wrs, strided_max_sge}
use m_kernel.Proxy.Loop.Still.{Still, strided_tail-Still, build_chain-Still}
use m_kernel.Proxy.Loop.{
  filter_strided, prefilter, Filtered, total_logical_queues, next_qp, post_batch, retire,
}
use m_kernel.Proxy.Chain.{build_chain}

Still-Kept : {s t : Proxy} → Still s t → Kept s t
Still-Kept st = record {
  same_cfg = st.same_cfg;
  same_limit = st.same_limit;
  same_pending = st.same_pending;
  same_rr = st.same_rr;
}

-- The round robin stays among the QPs.
pub record Moved (s t : Proxy) : Type 0 where
  pub same_cfg : t.cfg ≡ s.cfg
  pub same_pending : t.pending ≡ s.pending
  pub own_rr : t.qp_rr_idx < s.cfg.num_qps

module _ (accept : ℕ → Bool) where
  post_strided-Kept :
      (s : Proxy) (cmd : TransferCmd) (qp tlq : ℕ)
      → Kept s (post_strided_direct accept s cmd qp tlq).1
  unfolding post_strided_direct
  post_strided-Kept s cmd qp tlq =
      let P : ℕ × Proxy → Type 0 = λ r. Kept s r.1 in
      let n_data : ℕ = n_data_wrs cmd.row_count (strided_max_sge s.cfg) in
      let t : Proxy = (strided_tail s cmd qp tlq n_data).1 in
      let sent : (p : Post) → Kept s (post_send accept t p).1 = λ p.
        Kept-trans (Still-Kept (strided_tail-Still s cmd qp tlq n_data))
          (post_send-Kept accept t p) in
      if_both P
        (u32 s.cfg.row_stride_bytes == 0
          || cmd.row_count == 0
          || cmd.row_span == 0
          || ltb 256 cmd.row_count)
        (Kept-refl s) (if_both P (ltb 16 n_data) (Kept-refl s) (if_both P _ (sent _) (sent _)))

  filter_strided-Kept :
      (qp : ℕ) (cmds : List TransferCmd) (s : Proxy)
      → Kept s (filter_strided accept qp cmds s).state
        × (length (filter_strided accept qp cmds s).others ≤ length cmds)
  unfolding filter_strided
  filter_strided-Kept qp [] s = (Kept-refl s, omega arith)
  filter_strided-Kept qp (cmd ∷ cmds) s = elim (Bool-cases (cmd.src_view == 2)) [
    | inl e ↦
        let t : Proxy = (post_strided_direct accept s cmd qp (total_logical_queues s.cfg)).1 in
        let (kept, short) = filter_strided-Kept qp cmds t in
        rw (filter_strided, e)
          (
            Kept-trans (post_strided-Kept s cmd qp (total_logical_queues s.cfg)) kept,
            omega (arith, short),
          )
    | inr e ↦
        let (kept, short) = filter_strided-Kept qp cmds s in
        rw (filter_strided, e) (kept, omega (arith, short))
  ]

  pub prefilter-Kept :
      (qp : ℕ) (batch : List TransferCmd) (s : Proxy)
      → Kept s (prefilter accept qp batch s).state
        × (length (prefilter accept qp batch s).others ≤ length batch)
  unfolding prefilter
  prefilter-Kept qp batch s =
      if_both (λ (r : Filtered). Kept s r.state × (length r.others ≤ length batch))
        (ltb 0 (length batch) && s.cfg.direct_dmabuf_enabled) (filter_strided-Kept qp batch s)
        (Kept-refl s, omega arith)

  next_qp-Moved :
      {s : Proxy} (t : Proxy)
      → 0 < s.cfg.num_qps
      → s.qp_rr_idx < s.cfg.num_qps
      → Kept s t
      → Moved s (next_qp t)
  unfolding next_qp
  next_qp-Moved {s} t some_qp rr k =
      if_both (Moved s) t.cfg.use_arrival_queue
        (record {
          same_cfg = k.same_cfg;
          same_pending = k.same_pending;
          own_rr = omega (arith, k.same_rr, ap (λ (c : ProxyConfig). c.num_qps) k.same_cfg);
        })
        (record {
          same_cfg = k.same_cfg;
          same_pending = k.same_pending;
          own_rr = omega (
            arith,
            mod-lt (t.qp_rr_idx + 1) {m = t.cfg.num_qps}
                (omega (arith, ap (λ (c : ProxyConfig). c.num_qps) k.same_cfg)),
            ap (λ (c : ProxyConfig). c.num_qps) k.same_cfg,
          );
        })

  pub post_batch-Moved :
      (payload_at : ℕ → ℕ) (qp : ℕ) (batch : List TransferCmd) (s : Proxy)
      → 0 < s.cfg.num_qps
      → s.qp_rr_idx < s.cfg.num_qps
      → Moved s (post_batch accept payload_at qp batch s)
  unfolding post_batch
  post_batch-Moved payload_at qp [] s some_qp rr = record {
    same_cfg = refl;
    same_pending = refl;
    own_rr = rr;
  }
  post_batch-Moved payload_at qp (cmd ∷ cmds) s some_qp rr =
      let (wrs, t) =
        build_chain payload_at (total_logical_queues s.cfg) qp (length (cmd ∷ cmds)) s
          (cmd ∷ cmds) in
      let p : Post = record { on_qp = qp; chain = wrs } in
      next_qp-Moved _ some_qp rr (
        counted-Kept (post_send accept t p).0 (length (cmd ∷ cmds)) (
          Kept-trans
            (Still-Kept (
              build_chain-Still payload_at (total_logical_queues s.cfg) qp (length (cmd ∷ cmds)) s
                (cmd ∷ cmds)))
            (post_send-Kept accept t p)))

pub retire-Moved : (wr_ids : List ℕ) (s : Proxy) {t : Proxy} → Moved t s → Moved t (retire wr_ids s)
unfolding retire
retire-Moved [] s m = m
retire-Moved (wr_id ∷ wr_ids) s m =
    retire-Moved wr_ids _
      (record { same_cfg = m.same_cfg; same_pending = m.same_pending; own_rr = m.own_rr })
