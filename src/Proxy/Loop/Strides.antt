-- ===== src/Proxy/Loop/Strides.antt =====
-- A gather is counted by the number that its posting returns, and the batch by its length.
use m_kernel.Prelude.{
  ℕ, zero, suc, ◌+◌, List, [], ◌∷◌, Bool, true, ◌≡◌, if_both, Bool-cases, refl, ◌<◌, inl, ◌^◌, inr,
  if_known, if◌then◌else◌, ◌≤◌, ltb, ◌++◌, arith, ltb→le, length, ◌==◌,
}
use m_kernel.Types.{TransferCmd}
use mathlib.Core.Path.{subst}
use m_kernel.Proxy.{Proxy, WorkRequest, Post, post_send}
use m_kernel.Proxy.WrId.{encode_wr_id}
use m_kernel.Proxy.Ledger.{Owed, chain_count, Signed, Signed-chain_count, Quiet, Quiet-Signed}
use m_kernel.Proxy.Loop.Still.{strided_tail-Still, build_chain-Still}
use m_kernel.Proxy.Loop.Posting.{Still-Owed, posting-Owed, with_post, counted-Owed}
use m_kernel.Proxy.Strided.{
  Gather, data_wrs, strided_tail, tail_requests, post_strided_direct, n_data_wrs, word_wr,
  strided_max_sge,
}
use m_kernel.Proxy.Chain.Batch.{Signed-two, build_chain-Signed}
use m_kernel.Proxy.Loop.{
  filter_strided, prefilter, post_batch, Filtered, next_qp, total_logical_queues,
}

data_wrs-Quiet :
    (g : Gather) (rows max_sge w row remote : ℕ) → Quiet (data_wrs g rows max_sge w row remote)
unfolding data_wrs
data_wrs-Quiet g rows max_sge zero row remote = tt
data_wrs-Quiet g rows max_sge (suc w) row remote = (refl, data_wrs-Quiet g rows max_sge w _ _)

Signed-one : {a : WorkRequest} → a.is_signaled ≡ true → Signed (a ∷ []) a.wr_id
Signed-one {a} h = record {
  before = [];
  final = a;
  parts = refl;
  quiet = tt;
  signaled = h;
  names = refl;
}

strided_tail-Signed :
    (s : Proxy) (cmd : TransferCmd) (qp tlq n_data : ℕ)
    → Signed (strided_tail s cmd qp tlq n_data).0 (encode_wr_id qp (n_data + tail_requests s.cfg))
unfolding strided_tail word_wr
strided_tail-Signed s cmd qp tlq n_data = elim (Bool-cases s.cfg.use_arrival_queue) [
  | inl a ↦ elim (Bool-cases s.cfg.enable_remote_tail) [
    | inl b ↦ rw (a, b) (Signed-two refl refl)
    | inr b ↦ rw (a, b) (Signed-one refl)
  ]
  | inr a ↦ rw a (Signed-one refl)
]

strided_chain-count :
    (s : Proxy) (cmd : TransferCmd) (g : Gather) (rows max_sge remote qp tlq n_data : ℕ)
    → qp < 2 ^ 31
    → n_data ≤ 16
    → chain_count (data_wrs g rows max_sge n_data 0 remote ++ (strided_tail s cmd qp tlq n_data).0)
      ≡ n_data + tail_requests s.cfg
strided_chain-count s cmd g rows max_sge remote qp tlq n_data hq hn =
    Signed-chain_count qp (n_data + tail_requests s.cfg) hq few (
      Quiet-Signed (data_wrs g rows max_sge n_data 0 remote)
        (data_wrs-Quiet g rows max_sge n_data 0 remote) (strided_tail-Signed s cmd qp tlq n_data))
  where
    few : n_data + tail_requests s.cfg < 2 ^ 31
    few = ground arith

module _ (accept : ℕ → Bool) where
  abbrev Counted : ℕ → ℕ × Proxy → Type 0
  Counted k r = Owed r.1 (r.0 + k)

  nothing-Counted : (s : Proxy) (k : ℕ) → Owed s k → Counted k (0, s)
  nothing-Counted s k h = subst (Owed s) (omega arith) h

  sent-Counted :
      (s : Proxy) (p : Post) (c k : ℕ)
      → chain_count p.chain ≡ c
      → Owed s k
      → Counted k (
          if (post_send accept s p).0
          then (c, (post_send accept s p).1)
          else (0, (post_send accept s p).1))
  unfolding post_send
  sent-Counted s p c k e h =
      if_both (λ (r : Bool × Proxy). Counted k (if r.0 then (c, r.1) else (0, r.1)))
        (accept s.calls) (subst (λ x. Owed (with_post s p) (x + k)) e (posting-Owed p h))
        (nothing-Counted (record s { calls = suc s.calls }) k (record { accounts = h.accounts }))

  pub post_strided-Owed :
      (s : Proxy) (cmd : TransferCmd) (qp tlq k : ℕ)
      → qp < 2 ^ 31
      → Owed s k
      → Counted k (post_strided_direct accept s cmd qp tlq)
  unfolding post_strided_direct
  post_strided-Owed s cmd qp tlq k hq h =
      let none_sent : Counted k (0, s) = nothing-Counted s k h in
      if_both (Counted k) _ none_sent (
        if_known (Counted k) (ltb 16 (n_data_wrs cmd.row_count (strided_max_sge s.cfg)))
          (λ many. none_sent)
          (λ few.
            sent-Counted _ _ _ k
              (strided_chain-count s cmd _ cmd.row_count (strided_max_sge s.cfg) _ qp tlq
                (n_data_wrs cmd.row_count (strided_max_sge s.cfg)) hq (ltb→le _ _ few))
              (Still-Owed
                (strided_tail-Still s cmd qp tlq (n_data_wrs cmd.row_count (strided_max_sge s.cfg)))
                h)))

  filter_strided-Owed :
      (qp : ℕ) (cmds : List TransferCmd) (s : Proxy) (k : ℕ)
      → qp < 2 ^ 31
      → Owed s k
      → Owed
          (filter_strided accept qp cmds s).state
          ((filter_strided accept qp cmds s).strided_posted + k)
  unfolding filter_strided
  filter_strided-Owed qp [] s k hq h = nothing-Counted s k h
  filter_strided-Owed qp (cmd ∷ cmds) s k hq h = elim (Bool-cases (cmd.src_view == 2)) [
    | inl e ↦
        let (c, t) = post_strided_direct accept s cmd qp (total_logical_queues s.cfg) in
        let sent : Owed t (c + k) =
          post_strided-Owed s cmd qp (total_logical_queues s.cfg) k hq h in
        rw (filter_strided, e)
          (subst (Owed (filter_strided accept qp cmds t).state) (omega arith)
            (filter_strided-Owed qp cmds t (c + k) hq sent))
    | inr e ↦ rw (filter_strided, e) (filter_strided-Owed qp cmds s k hq h)
  ]

  pub prefilter-Owed :
      (qp : ℕ) (batch : List TransferCmd) (s : Proxy)
      → qp < 2 ^ 31
      → Owed s 0
      → Owed (prefilter accept qp batch s).state ((prefilter accept qp batch s).strided_posted)
  unfolding prefilter
  prefilter-Owed qp batch s hq h =
      if_both (λ (r : Filtered). Owed r.state r.strided_posted) _
        (subst (Owed (filter_strided accept qp batch s).state) (omega arith)
          (filter_strided-Owed qp batch s 0 hq h))
        h

  next_qp-Owed : (s : Proxy) {k : ℕ} → Owed s k → Owed (next_qp s) k
  unfolding next_qp
  next_qp-Owed s {k} h =
      if_both (λ t. Owed t k) s.cfg.use_arrival_queue h (record { accounts = h.accounts })

  pub post_batch-Owed :
      (payload_at : ℕ → ℕ) (qp : ℕ) (batch : List TransferCmd) (s : Proxy) (k : ℕ)
      → qp < 2 ^ 31
      → length batch < 2 ^ 31
      → Owed s k
      → Owed (post_batch accept payload_at qp batch s) k
  unfolding post_batch
  post_batch-Owed payload_at qp [] s k hq hc h = h
  post_batch-Owed payload_at qp (cmd ∷ cmds) s k hq hc h = next_qp-Owed _ (
      counted-Owed accept _ _
        (build_chain-Signed payload_at (total_logical_queues s.cfg) qp s (cmd ∷ cmds) (omega arith)
          hq hc).1
        (Still-Owed
          (build_chain-Still payload_at (total_logical_queues s.cfg) qp (length (cmd ∷ cmds)) s
            (cmd ∷ cmds))
          h))
