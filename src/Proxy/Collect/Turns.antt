-- ===== src/Proxy/Collect/Turns.antt =====
-- The loop of a collection, turn by turn.
use m_kernel.Prelude.{
  ℕ, ◌+◌, ◌==◌, Bool, true, none, List, [], ◌∷◌, ◌++◌, length, All, ◌≡◌, ap, refl, ◌∙◌, ◌⊎◌, sym,
  ◌<◌, append_assoc, arith, inl, inr, length-append, All-append, Bool-cases, ==_iff,
}
use m_kernel.Prelude.Int.{pos}
use m_kernel.Types.{TransferCmd}
use m_kernel.Proxy.{Proxy, ProxyConfig, below, batch_size}
use m_kernel.Proxy.Collect.{
  Verdict, verdict, Collected, collect_loop, may_take, qp_with, notify, ignore, keep, route,
}
use m_kernel.Proxy.Collect.Spec.{Fit, Outcome, wanted, waiting, qp_with-own, verdict-own}
use m_kernel.Proxy.Kept.{Kept, post_stage_barrier-Kept}

module _ (accept : ℕ → Bool) (token_at : ℕ) (cfg : ProxyConfig) (limit rr n : ℕ) where
  pub record Start (s : Proxy) (batch : List TransferCmd) (qp : ℕ) : Type 0 where
    pub same_cfg : s.cfg ≡ cfg
    pub same_limit : s.effective_max_inflight ≡ limit
    pub no_pending : s.pending ≡ none
    pub same_rr : s.qp_rr_idx ≡ rr
    pub fit : Fit cfg limit n batch qp

  abbrev pub loop : List TransferCmd → Proxy → List TransferCmd → ℕ → Collected
  loop = collect_loop accept token_at (pos n)

  pub stays :
      {s t : Proxy} {batch : List TransferCmd} {qp : ℕ}
      → Start s batch qp
      → Kept s t
      → Start t batch qp
  stays st k = record {
    same_cfg = k.same_cfg ∙ st.same_cfg;
    same_limit = k.same_limit ∙ st.same_limit;
    no_pending = k.same_pending ∙ st.no_pending;
    same_rr = k.same_rr ∙ st.same_rr;
    fit = st.fit;
  }

  stop_here :
      (s : Proxy) (batch : List TransferCmd) (qp : ℕ) (cmds : List TransferCmd)
      → Start s batch qp
      → Outcome cfg limit rr n batch cmds
          (record { state = s; batch = batch; batch_qp = qp; rest = cmds })
  unfolding wanted
  stop_here s batch qp cmds st = record {
    taken = [];
    prefix = refl;
    order = ap (λ p. batch ++ waiting p) (sym st.no_pending);
    fit = st.fit;
    held = rw st.no_pending tt;
    same_cfg = st.same_cfg;
    same_limit = st.same_limit;
    same_rr = st.same_rr;
  }

  may_take-room :
      (s : Proxy) (batch : List TransferCmd)
      → may_take accept token_at (pos n) s batch ≡ true
      → (length batch < batch_size) × (n + length batch < s.effective_max_inflight)
  unfolding may_take below
  may_take-room s batch m = (ground arith, ground arith)

  -- A command that the batch takes on.
  grown :
      (s : Proxy) (batch : List TransferCmd) (qp qp' : ℕ) (cmd : TransferCmd)
      → Start s batch qp
      → may_take accept token_at (pos n) s batch ≡ true
      → All (λ c. (verdict cfg c ≡ keep) ⊎ (verdict cfg c ≡ route qp')) batch
      → (verdict cfg cmd ≡ keep) ⊎ (verdict cfg cmd ≡ route qp')
      → qp' < cfg.num_qps
      → Start s (batch ++ (cmd ∷ [])) qp'
  grown s batch qp qp' cmd st m all_one one own =
      let (short, room) = may_take-room s batch m in
      record {
        same_cfg = st.same_cfg;
        same_limit = st.same_limit;
        no_pending = st.no_pending;
        same_rr = st.same_rr;
        fit = record {
          short = omega (arith, length-append batch (cmd ∷ []));
          room = λ h. omega (arith, length-append batch (cmd ∷ []), st.same_limit, room);
          own_qp = own;
          one_qp = All-append _ batch (cmd ∷ []) all_one (one, tt);
        };
      }

  -- The end of a collection that goes on after one command, which adds `more` to the batch.
  after :
      {batch cmds : List TransferCmd} {r : Collected} (cmd : TransferCmd) (more : List TransferCmd)
      → ((taken : List TransferCmd) → wanted cfg (cmd ∷ taken) ≡ more ++ wanted cfg taken)
      → Outcome cfg limit rr n (batch ++ more) cmds r
      → Outcome cfg limit rr n batch (cmd ∷ cmds) r
  after {batch} cmd more grows o = record {
    taken = cmd ∷ o.taken;
    prefix = ap (λ l. cmd ∷ l) o.prefix;
    order =
        ap (λ l. batch ++ l) (grows o.taken)
        ∙ sym (append_assoc batch more (wanted cfg o.taken))
        ∙ o.order;
    fit = o.fit;
    held = o.held;
    same_cfg = o.same_cfg;
    same_limit = o.same_limit;
    same_rr = o.same_rr;
  }

  after_none :
      {batch cmds : List TransferCmd} {r : Collected} (cmd : TransferCmd)
      → ((taken : List TransferCmd) → wanted cfg (cmd ∷ taken) ≡ wanted cfg taken)
      → Outcome cfg limit rr n batch cmds r
      → Outcome cfg limit rr n batch (cmd ∷ cmds) r
  after_none {batch} cmd same o = record {
    taken = cmd ∷ o.taken;
    prefix = ap (λ l. cmd ∷ l) o.prefix;
    order = ap (λ l. batch ++ l) (same o.taken) ∙ o.order;
    fit = o.fit;
    held = o.held;
    same_cfg = o.same_cfg;
    same_limit = o.same_limit;
    same_rr = o.same_rr;
  }

  wanted-one :
      (cmd : TransferCmd)
      → (verdict cfg cmd ≡ keep) ⊎ ((qp : ℕ) × (verdict cfg cmd ≡ route qp))
      → (taken : List TransferCmd) → wanted cfg (cmd ∷ taken) ≡ (cmd ∷ []) ++ wanted cfg taken
  unfolding wanted
  wanted-one cmd (inl e) taken = rw (wanted, e) refl
  wanted-one cmd (inr (qp, e)) taken = rw (wanted, e) refl

  wanted-other :
      (cmd : TransferCmd)
      → (verdict cfg cmd ≡ notify) ⊎ (verdict cfg cmd ≡ ignore)
      → (taken : List TransferCmd) → wanted cfg (cmd ∷ taken) ≡ wanted cfg taken
  unfolding wanted
  wanted-other cmd (inl e) taken = rw (wanted, e) refl
  wanted-other cmd (inr e) taken = rw (wanted, e) refl

  moved_verdict :
      {s : Proxy} {batch : List TransferCmd} {qp : ℕ} {v : Verdict} (cmd : TransferCmd)
      → Start s batch qp
      → verdict s.cfg cmd ≡ v
      → verdict cfg cmd ≡ v
  moved_verdict cmd st e = ap (λ c. verdict c cmd) (sym st.same_cfg) ∙ e

  still_one :
      (batch : List TransferCmd) (qp q : ℕ)
      → All (λ c. (verdict cfg c ≡ keep) ⊎ (verdict cfg c ≡ route qp)) batch
      → All (λ c. (verdict cfg c ≡ keep) ⊎ (verdict cfg c ≡ route (qp_with batch q qp))) batch
  still_one [] qp q h = tt
  still_one (b ∷ batch) qp q h = h

  -- One turn of the loop, with the rest of it given.
  turn :
      (cmd : TransferCmd) (cmds : List TransferCmd) (s : Proxy) (batch : List TransferCmd) (qp : ℕ)
      → Start s batch qp
      → may_take accept token_at (pos n) s batch ≡ true
      → ((t : Proxy) (b : List TransferCmd) (q : ℕ)
          → Start t b q
          → Outcome cfg limit rr n b cmds (loop cmds t b q))
      → (v : Verdict) → verdict s.cfg cmd ≡ v
      → Outcome cfg limit rr n batch (cmd ∷ cmds) (loop (cmd ∷ cmds) s batch qp)
  unfolding collect_loop wanted
  turn cmd cmds s batch qp st m go notify v =
      rw (collect_loop, m, v)
        (after_none cmd (wanted-other cmd (inl (moved_verdict cmd st v)))
          (go _ batch qp (stays st (post_stage_barrier-Kept accept token_at 0 s.cfg.epoch s))))
  turn cmd cmds s batch qp st m go ignore v =
      rw (collect_loop, m, v)
        (after_none cmd (wanted-other cmd (inr (moved_verdict cmd st v))) (go s batch qp st))
  turn cmd cmds s batch qp st m go keep v =
      let kept : verdict cfg cmd ≡ keep = moved_verdict cmd st v in
      rw (collect_loop, m, v)
        (after cmd (cmd ∷ []) (wanted-one cmd (inl kept)) (
          go s (batch ++ (cmd ∷ [])) qp
            (grown s batch qp qp cmd st m st.fit.one_qp (inl kept) st.fit.own_qp)))
  turn cmd cmds s batch qp st m go (route q) v =
      let routed : verdict cfg cmd ≡ route q = moved_verdict cmd st v in
      elim (Bool-cases (q == qp_with batch q qp)) [
        | inl e ↦
            let same : q ≡ qp_with batch q qp = (==_iff q (qp_with batch q qp)).0 e in
            rw (collect_loop, m, v, e)
              (after cmd (cmd ∷ []) (wanted-one cmd (inr (q, routed))) (
                go s (batch ++ (cmd ∷ [])) (qp_with batch q qp) (
                  grown s batch qp (qp_with batch q qp) cmd st m
                    (still_one batch qp q st.fit.one_qp) (inr (routed ∙ ap route same))
                    (qp_with-own batch q qp cfg.num_qps (verdict-own cfg cmd q routed)
                      st.fit.own_qp))))
        | inr e ↦
            rw (collect_loop, m, v, e)
              (record {
                taken = cmd ∷ [];
                prefix = refl;
                order = ap (λ l. batch ++ l) (wanted-one cmd (inr (q, routed)) []);
                fit = st.fit;
                held = (q, routed);
                same_cfg = st.same_cfg;
                same_limit = st.same_limit;
                same_rr = st.same_rr;
              })
      ]

  pub loop-Outcome :
      (cmds : List TransferCmd) (s : Proxy) (batch : List TransferCmd) (qp : ℕ)
      → Start s batch qp
      → Outcome cfg limit rr n batch cmds (loop cmds s batch qp)
  unfolding collect_loop
  loop-Outcome [] s batch qp st = stop_here s batch qp [] st
  loop-Outcome (cmd ∷ cmds) s batch qp st =
      elim (Bool-cases (may_take accept token_at (pos n) s batch)) [
        | inl m ↦ turn cmd cmds s batch qp st m (loop-Outcome cmds) (verdict s.cfg cmd) refl
        | inr m ↦ rw (collect_loop, m) (stop_here s batch qp (cmd ∷ cmds) st)
      ]
