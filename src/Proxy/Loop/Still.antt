-- ===== src/Proxy/Loop/Still.antt =====
-- Building a chain touches neither the counter nor the record of what is posted.
use m_kernel.Prelude.{ℕ, ◌+◌, ◌==◌, List, [], ◌∷◌, Bool, ◌≡◌, if_both, update, ◌∙◌, refl}
use m_kernel.Types.{TransferCmd, ForwardNotify}
use m_kernel.Proxy.{Proxy, WorkRequest}
use m_kernel.Proxy.Strided.{strided_tail}
use m_kernel.Proxy.Forward.{forward_notify_enabled}
use m_kernel.Proxy.Chain.{cmd_wrs, chain_from, build_chain}

pub record Still (s t : Proxy) : Type 0 where
  pub same_inflight : t.inflight ≡ s.inflight
  pub same_posted : t.posted ≡ s.posted
  pub same_retired : t.retired ≡ s.retired
  pub same_calls : t.calls ≡ s.calls
  pub same_cfg : t.cfg ≡ s.cfg
  pub same_limit : t.effective_max_inflight ≡ s.effective_max_inflight
  pub same_pending : t.pending ≡ s.pending
  pub same_rr : t.qp_rr_idx ≡ s.qp_rr_idx

-- A change of the staged words, the sequence numbers and the payloads.
pub staged-Still :
    (s : Proxy) (seq staging : ℕ → ℕ) (payload : ℕ → ForwardNotify)
    → Still s (record s { sender_seq = seq; staging = staging; notify_payload = payload })
staged-Still s seq staging payload = record {
  same_inflight = refl;
  same_posted = refl;
  same_retired = refl;
  same_calls = refl;
  same_cfg = refl;
  same_limit = refl;
  same_pending = refl;
  same_rr = refl;
}

Still-trans : {s t u : Proxy} → Still s t → Still t u → Still s u
Still-trans a b = record {
  same_inflight = b.same_inflight ∙ a.same_inflight;
  same_posted = b.same_posted ∙ a.same_posted;
  same_retired = b.same_retired ∙ a.same_retired;
  same_calls = b.same_calls ∙ a.same_calls;
  same_cfg = b.same_cfg ∙ a.same_cfg;
  same_limit = b.same_limit ∙ a.same_limit;
  same_pending = b.same_pending ∙ a.same_pending;
  same_rr = b.same_rr ∙ a.same_rr;
}

module _ (payload_at : ℕ → ℕ) (total_logical_queues qp count : ℕ) where
  cmd_wrs-Still :
      (s : Proxy) (i : ℕ) (last : Bool) (cmd : TransferCmd)
      → Still s (cmd_wrs payload_at total_logical_queues qp count s i last cmd).1
  unfolding cmd_wrs
  cmd_wrs-Still s i last cmd =
      let P : List WorkRequest × Proxy → Type 0 = λ r. Still s r.1 in
      if_both P s.cfg.use_arrival_queue
        (if_both P s.cfg.enable_remote_tail (staged-Still s _ _ _) (staged-Still s _ _ _))
        (if_both P (forward_notify_enabled s.cfg cmd) (staged-Still s _ _ _) (staged-Still s _ _ _))

  chain_from-Still :
      (s : Proxy) (i : ℕ) (cmds : List TransferCmd)
      → Still s (chain_from payload_at total_logical_queues qp count s i cmds).1
  unfolding chain_from
  chain_from-Still s i [] = staged-Still s s.sender_seq s.staging s.notify_payload
  chain_from-Still s i (cmd ∷ cmds) = Still-trans (cmd_wrs-Still s i (i + 1 == count) cmd) (
      chain_from-Still (cmd_wrs payload_at total_logical_queues qp count s i (i + 1 == count) cmd).1
        (i + 1) cmds)

  pub build_chain-Still :
      (s : Proxy) (batch : List TransferCmd)
      → Still s (build_chain payload_at total_logical_queues qp count s batch).1
  unfolding build_chain
  build_chain-Still s batch =
      Still-trans (staged-Still s s.sender_seq (update s.staging 0 s.cfg.epoch) s.notify_payload)
        (chain_from-Still (record s { staging = update s.staging 0 s.cfg.epoch }) 0 batch)

pub strided_tail-Still :
    (s : Proxy) (cmd : TransferCmd) (qp total_logical_queues n_data : ℕ)
    → Still s (strided_tail s cmd qp total_logical_queues n_data).1
unfolding strided_tail
strided_tail-Still s cmd qp total_logical_queues n_data =
    let P : List WorkRequest × Proxy → Type 0 = λ r. Still s r.1 in
    if_both P s.cfg.use_arrival_queue
      (if_both P s.cfg.enable_remote_tail (staged-Still s _ _ _) (staged-Still s _ _ _))
      (staged-Still s _ _ _)
