-- ===== src/Efa/Collect/Ends.antt =====
-- What one poll does to a batch that is collected, whichever loop polls.
use m_kernel.Prelude.{
  ℕ, Bool, List, ◌≡◌, Option, ◌∙◌, [], none, some, ◌++◌, ap, ◌∷◌, refl, sym, true, append_assoc,
  if◌then◌else◌, length, ◌<◌, arith, ◌+◌,
}
use m_kernel.Efa.Collect.{
  EfaCollected, kind, barrier, transfer, polled_one, has_room, joins, joined_qp,
}
use m_kernel.Efa.{Efa, EfaConfig, efa_batch_size}
use m_kernel.Efa.Post.Still.{frame, Frame}
use m_kernel.Efa.Collect.Spec.{
  transfers, EfaStart, EfaOutcome, put_aside, transfers-one, transfers-barrier, EfaFit, join-Fit,
}
use m_kernel.Types.{TransferCmd}
use m_kernel.Prelude.Int.{pos}
use m_kernel.Proxy.{below}
use mathlib.Core.Path.{subst}

module _ (accept : ℕ → Bool) (cfg : EfaConfig) (cap_of limit n : ℕ) where
  -- An end where the loop stops.
  pub stop :
      (s : Efa) (batch : List TransferCmd) (qp : ℕ) (ps : List (Option TransferCmd))
      → EfaStart cfg cap_of limit n s batch qp
      → EfaOutcome cfg cap_of limit n batch ps
          (record { state = s; batch = batch; batch_qp = qp; polls = ps })
  unfolding transfers
  stop s batch qp ps st = record {
    taken = [];
    prefix = refl;
    order = ap (λ p. batch ++ put_aside p) (sym st.nothing_aside);
    fit = st.fit;
    same_cfg = st.same_cfg;
    same_limit = st.same_limit;
    same_cap = st.same_cap;
  }

  -- One poll more in front of what an end has taken.
  pub after_none :
      {batch : List TransferCmd} {ps : List (Option TransferCmd)} {r : EfaCollected}
      → EfaOutcome cfg cap_of limit n batch ps r
      → EfaOutcome cfg cap_of limit n batch (none ∷ ps) r
  unfolding transfers
  after_none o = record {
    taken = none ∷ o.taken;
    prefix = ap (λ l. none ∷ l) o.prefix;
    order = o.order;
    fit = o.fit;
    same_cfg = o.same_cfg;
    same_limit = o.same_limit;
    same_cap = o.same_cap;
  }

  pub after_other :
      {batch : List TransferCmd} {ps : List (Option TransferCmd)} {r : EfaCollected}
      (cmd : TransferCmd)
      → ((qs : List (Option TransferCmd)) → transfers (some cmd ∷ qs) ≡ transfers qs)
      → EfaOutcome cfg cap_of limit n batch ps r
      → EfaOutcome cfg cap_of limit n batch (some cmd ∷ ps) r
  unfolding transfers
  after_other {batch} cmd skip o = record {
    taken = some cmd ∷ o.taken;
    prefix = ap (λ l. some cmd ∷ l) o.prefix;
    order = ap (λ l. batch ++ l) (skip o.taken) ∙ o.order;
    fit = o.fit;
    same_cfg = o.same_cfg;
    same_limit = o.same_limit;
    same_cap = o.same_cap;
  }

  pub after_transfer :
      {batch : List TransferCmd} {ps : List (Option TransferCmd)} {r : EfaCollected}
      (cmd : TransferCmd)
      → kind cmd ≡ transfer
      → EfaOutcome cfg cap_of limit n (batch ++ (cmd ∷ [])) ps r
      → EfaOutcome cfg cap_of limit n batch (some cmd ∷ ps) r
  unfolding transfers
  after_transfer {batch} cmd is o = record {
    taken = some cmd ∷ o.taken;
    prefix = ap (λ l. some cmd ∷ l) o.prefix;
    order =
        ap (λ l. batch ++ l) (transfers-one cmd o.taken is)
        ∙ sym (append_assoc batch (cmd ∷ []) (transfers o.taken))
        ∙ o.order;
    fit = o.fit;
    same_cfg = o.same_cfg;
    same_limit = o.same_limit;
    same_cap = o.same_cap;
  }

  -- A command that does not join is put aside.
  pub put_by :
      (s : Efa) (batch : List TransferCmd) (qp : ℕ) (cmd : TransferCmd)
      (ps : List (Option TransferCmd))
      → kind cmd ≡ transfer
      → EfaStart cfg cap_of limit n s batch qp
      → EfaOutcome cfg cap_of limit n batch (some cmd ∷ ps) (record {
        state = record (polled_one s) { pending_cmd = some cmd };
        batch = batch;
        batch_qp = qp;
        polls = ps;
      })
  unfolding transfers
  put_by s batch qp cmd ps is st = record {
    taken = some cmd ∷ [];
    prefix = refl;
    order = ap (λ l. batch ++ l) (transfers-one cmd [] is);
    fit = st.fit;
    same_cfg = st.same_cfg;
    same_limit = st.same_limit;
    same_cap = st.same_cap;
  }

  -- A barrier behind a batch waits, and the batch ends.
  pub barrier_waits :
      (s : Efa) (batch : List TransferCmd) (qp : ℕ) (cmd : TransferCmd)
      (ps : List (Option TransferCmd))
      → kind cmd ≡ barrier
      → EfaStart cfg cap_of limit n s batch qp
      → EfaOutcome cfg cap_of limit n batch (some cmd ∷ ps) (record {
        state = record (polled_one s) { has_pending_barrier = true };
        batch = batch;
        batch_qp = qp;
        polls = ps;
      })
  unfolding transfers
  barrier_waits s batch qp cmd ps is st = record {
    taken = some cmd ∷ [];
    prefix = refl;
    order =
        ap (λ l. batch ++ l) (transfers-barrier cmd [] is)
        ∙ ap (λ p. batch ++ put_aside p) (sym st.nothing_aside);
    fit = st.fit;
    same_cfg = st.same_cfg;
    same_limit = st.same_limit;
    same_cap = st.same_cap;
  }

  pub stays :
      {s t : Efa} {batch : List TransferCmd} {qp : ℕ}
      → frame t ≡ frame s
      → EfaStart cfg cap_of limit n s batch qp
      → EfaStart cfg cap_of limit n t batch qp
  stays same st = record {
    fit = st.fit;
    nothing_aside = ap (λ (f : Frame). f.2) same ∙ st.nothing_aside;
    same_cfg = ap (λ (f : Frame). f.0) same ∙ st.same_cfg;
    same_limit = ap (λ (f : Frame). f.1) same ∙ st.same_limit;
    same_cap =
        ap (λ (f : Frame). if f.0.pipeline_enabled then f.4 else efa_batch_size) same ∙ st.same_cap;
  }

  -- A command that joins while there is room.
  pub grown :
      (s : Efa) (batch : List TransferCmd) (qp : ℕ) (cmd : TransferCmd)
      → EfaStart cfg cap_of limit n s batch qp
      → has_room accept (pos n) s batch ≡ true
      → joins s.cfg batch qp cmd ≡ true
      → EfaStart cfg cap_of limit n
          (polled_one s)
          (batch ++ (cmd ∷ []))
          (joined_qp s.cfg batch qp cmd)
  unfolding has_room below
  grown s batch qp cmd st room join = record {
    fit =
        subst (λ c. EfaFit cfg cap_of limit n (batch ++ (cmd ∷ [])) (joined_qp c batch qp cmd))
          (sym st.same_cfg)
          (join-Fit cfg cap_of limit n batch qp cmd st.fit
            (subst (λ k. length batch < k) st.same_cap (ground arith))
            (subst (λ k. n + length batch < k) st.same_limit (ground arith))
            (ap (λ c. joins c batch qp cmd) (sym st.same_cfg) ∙ join));
    nothing_aside = st.nothing_aside;
    same_cfg = st.same_cfg;
    same_limit = st.same_limit;
    same_cap = st.same_cap;
  }
