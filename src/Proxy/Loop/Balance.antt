-- ===== src/Proxy/Loop/Balance.antt =====
-- The account of a whole turn, and of a run of turns.

use m_kernel.Prelude.{
  ℕ, List, [], ◌∷◌, Bool, true, ◌≡◌, if_both, Option, none, some, if_known, Bool-cases, sym, inl,
  ◌++◌, inr, ◌==◌, refl, ◌&&◌, ◌-◌, if◌then◌else◌, ◌<◌, length, ltb, ◌≤◌, arith, ap, ◌∙◌, ◌^◌,
}
use m_kernel.Prelude.Int.{ℤ, pos}
use mathlib.Core.Path.{subst}
use m_kernel.Types.{TransferCmd}
use m_kernel.Proxy.{Proxy, ProxyConfig, below, add_inflight}
use m_kernel.Proxy.Kept.{Kept, post_stage_barrier-Kept}
use m_kernel.Proxy.Ledger.{Owed}
use m_kernel.Proxy.Barrier.{post_stage_barrier}
use m_kernel.Proxy.Collect.{
  Verdict, verdict, Collected, collect_loop, collect, may_take, qp_with, routes,
}
use m_kernel.Proxy.Collect.Spec.{Held}
use m_kernel.Proxy.Collect.Order.{collect-order, from, collect-from}
use m_kernel.Proxy.Loop.{World, turn, collected, forwarded, Filtered, prefilter, post_batch, retire}
use m_kernel.Proxy.Loop.Posting.{Sized, post_stage_barrier-Owed, retire-Owed, counting-Owed}
use m_kernel.Proxy.Loop.Forwards.{Safe, IsCount, poll_forward-Safe, Safe-refl}
use m_kernel.Proxy.Loop.Strides.{prefilter-Owed, post_batch-Owed}
use m_kernel.Proxy.Route.{route_global_qp}
use m_kernel.Proxy.Loop.Keeping.{prefilter-Kept, Moved, post_batch-Moved, retire-Moved}

module _ (accept : ℕ → Bool) (token_at n : ℕ) where
  abbrev pre : ℤ
  pre = pos n

  abbrev Ends : List TransferCmd → Proxy → List TransferCmd → ℕ → Type 0
  Ends cmds s batch qp = Owed (collect_loop accept token_at pre cmds s batch qp).state 0

  turn-Owed :
      (cmd : TransferCmd) (cmds : List TransferCmd) (s : Proxy) (batch : List TransferCmd) (qp : ℕ)
      → may_take accept token_at pre s batch ≡ true
      → ((t : Proxy) (b : List TransferCmd) (q : ℕ) → Sized t.cfg → Owed t 0 → Ends cmds t b q)
      → Sized s.cfg
      → Owed s 0
      → (v : Verdict) → verdict s.cfg cmd ≡ v
      → Ends (cmd ∷ cmds) s batch qp
  unfolding collect_loop
  turn-Owed cmd cmds s batch qp m go z h Verdict.notify v =
      rw (collect_loop, m, v)
        (go (post_stage_barrier accept token_at 0 s.cfg.epoch s) batch qp
          (subst Sized (sym (post_stage_barrier-Kept accept token_at 0 s.cfg.epoch s).same_cfg) z)
          (post_stage_barrier-Owed accept token_at 0 s.cfg.epoch s z h))
  turn-Owed cmd cmds s batch qp m go z h Verdict.ignore v =
      rw (collect_loop, m, v) (go s batch qp z h)
  turn-Owed cmd cmds s batch qp m go z h Verdict.keep v =
      rw (collect_loop, m, v) (go s (batch ++ (cmd ∷ [])) qp z h)
  turn-Owed cmd cmds s batch qp m go z h (Verdict.route q) v =
      elim (Bool-cases (q == qp_with batch q qp)) [
        | inl e ↦ rw (collect_loop, m, v, e) (go s (batch ++ (cmd ∷ [])) (qp_with batch q qp) z h)
        | inr e ↦ rw (collect_loop, m, v, e) (record { accounts = h.accounts })
      ]

  collect_loop-Owed :
      (cmds : List TransferCmd) (s : Proxy) (batch : List TransferCmd) (qp : ℕ)
      → Sized s.cfg
      → Owed s 0
      → Ends cmds s batch qp
  unfolding collect_loop
  collect_loop-Owed [] s batch qp z h = h
  collect_loop-Owed (cmd ∷ cmds) s batch qp z h =
      elim (Bool-cases (may_take accept token_at pre s batch)) [
        | inl m ↦
            turn-Owed cmd cmds s batch qp m (collect_loop-Owed cmds) z h (verdict s.cfg cmd) refl
        | inr m ↦ rw (collect_loop, m) h
      ]

  collect-Owed :
      (cmds : List TransferCmd) (s : Proxy)
      → Sized s.cfg
      → Owed s 0
      → Owed (collect accept token_at pre cmds s).state 0
  unfolding from
  collect-Owed cmds s z h =
      subst (λ (c : Collected). Owed c.state 0) (sym (collect-from accept token_at n cmds s))
        (go s.pending)
    where
      go : (p : Option TransferCmd) → Owed (from accept token_at n cmds s p).state 0
      go none = collect_loop-Owed cmds s [] s.qp_rr_idx z h
      go (some cmd) =
          if_both (λ (c : Collected). Owed c.state 0)
            (routes s.cfg && below (pos n) 0 s.effective_max_inflight)
            (collect_loop-Owed cmds (record s { pending = none }) (cmd ∷ [])
              (route_global_qp s.cfg cmd - s.cfg.qp_base_idx) z (record { accounts = h.accounts }))
            (collect_loop-Owed cmds s [] s.qp_rr_idx z h)

-- What holds between turns: the counter is what is posted and not completed, the round robin and
-- the command put aside are for the proxy's own QPs, and there is at least one.
pub record Sound (s : Proxy) : Type 0 where
  pub sized : Sized s.cfg
  pub owed : Owed s 0
  pub own_rr : s.qp_rr_idx < s.cfg.num_qps
  pub held : Held s.cfg s.pending

Owed-settled : {t : Proxy} (k : ℕ) → Owed t k → Owed (if ltb 0 k then add_inflight t k else t) 0
Owed-settled {t} k h =
    if_known (λ u. Owed u 0) (ltb 0 k) (λ e. counting-Owed k 0 (subst (Owed t) (omega arith) h))
      (λ e. subst (Owed t) (ground arith) h)

-- The collection of a turn, with a counter that is not below zero.
module _ (w : World) (s : Proxy) (sound : Sound s) (counts : IsCount s.inflight) where
  abbrev start : Proxy
  start = forwarded w s

  start-Safe : Safe s start
  unfolding forwarded
  start-Safe =
      if_both (Safe s) (below s.inflight 0 s.effective_max_inflight)
        (poll_forward-Safe w.accept w.table s sound.sized) (Safe-refl s)

  record Taken (c : Collected) : Type 0 where
    owed : Owed c.state 0
    same_cfg : c.state.cfg ≡ s.cfg
    own_qp : c.batch_qp < s.cfg.num_qps
    short : length c.batch ≤ 8
    held : Held s.cfg c.state.pending
    own_rr : c.state.qp_rr_idx < s.cfg.num_qps

  start_num_qps : start.cfg.num_qps ≡ s.cfg.num_qps
  start_num_qps = ap (λ (c : ProxyConfig). c.num_qps) start-Safe.kept.same_cfg

  start-Held : Held start.cfg start.pending
  start-Held =
      subst (λ c. Held c start.pending) (sym start-Safe.kept.same_cfg)
        (subst (Held s.cfg) (sym start-Safe.kept.same_pending) sound.held)

  collect-Taken : (n : ℕ) → Taken (collect w.accept w.token_at (pos n) w.arriving start)
  collect-Taken n =
      let kept : Kept s start = start-Safe.kept in
      let o =
        collect-order w.accept w.token_at n w.arriving start start-Held
          (omega (arith, kept.same_rr, start_num_qps, sound.own_rr)) in
      record {
        owed =
            collect-Owed w.accept w.token_at n w.arriving start
              (subst Sized (sym kept.same_cfg) sound.sized) (start-Safe.owed sound.owed);
        same_cfg = o.same_cfg ∙ kept.same_cfg;
        own_qp = omega (arith, o.fit.own_qp, start_num_qps);
        short = o.fit.short;
        held =
            subst (λ c. Held c (collect w.accept w.token_at (pos n) w.arriving start).state.pending)
              kept.same_cfg o.held;
        own_rr = omega (arith, o.same_rr, kept.same_rr, sound.own_rr);
      }

  collected-Taken : Taken (collected w start)
  unfolding collected
  collected-Taken =
      let (n, e) = start-Safe.count counts in
      subst (λ z. Taken (collect w.accept w.token_at z w.arriving start)) (sym e) (collect-Taken n)

settled-Moved :
    {s t : Proxy} (k : ℕ) → Moved s t → Moved s (if ltb 0 k then add_inflight t k else t)
settled-Moved {s} k m =
    if_both (Moved s) (ltb 0 k)
      (record { same_cfg = m.same_cfg; same_pending = m.same_pending; own_rr = m.own_rr }) m

-- A turn of the loop, from a state whose counter is not below zero, keeps four facts, whatever
-- commands arrive, whichever posts are refused and whatever completes: the proxy has at least one QP
-- and fewer than 2^31; the counter is what the accepted posts ask completions for, less what has
-- completed; the round robin index is below the number of QPs; and a command that is put aside, if
-- there is one, routes to a QP of this proxy.
pub turn-Sound : (w : World) (s : Proxy) → Sound s → IsCount s.inflight → Sound (turn w s).state
unfolding turn
turn-Sound w s sound counts =
    let c : Collected = collected w (forwarded w s) in
    let k : Taken w s sound counts c = collected-Taken w s sound counts in
    let f : Filtered = prefilter w.accept c.batch_qp c.batch c.state in
    let fk : Kept c.state f.state × (length f.others ≤ length c.batch) =
      prefilter-Kept w.accept c.batch_qp c.batch c.state in
    let qps : f.state.cfg ≡ s.cfg = fk.0.same_cfg ∙ k.same_cfg in
    let num_qps : f.state.cfg.num_qps ≡ s.cfg.num_qps = ap (λ (x : ProxyConfig). x.num_qps) qps in
    let t : Proxy = post_batch w.accept w.payload_at c.batch_qp f.others f.state in
    let u : Proxy = (if ltb 0 f.strided_posted then add_inflight t f.strided_posted else t) in
    let qp_fits : c.batch_qp < 2 ^ 31 = omega (arith, k.own_qp, sound.sized.qps_fit) in
    let posted : Owed t f.strided_posted =
      post_batch-Owed w.accept w.payload_at c.batch_qp f.others f.state f.strided_posted qp_fits
        (omega (arith, fk.1, k.short))
        (prefilter-Owed w.accept c.batch_qp c.batch c.state qp_fits k.owed) in
    let moved : Moved f.state t =
      post_batch-Moved w.accept w.payload_at c.batch_qp f.others f.state
        (omega (arith, num_qps, sound.sized.some_qp))
        (omega (arith, num_qps, fk.0.same_rr, k.own_rr)) in
    let end : Moved f.state (retire w.completions u) =
      retire-Moved w.completions u (settled-Moved f.strided_posted moved) in
    record {
      sized = subst Sized (sym (end.same_cfg ∙ qps)) sound.sized;
      owed = retire-Owed w.completions u (Owed-settled f.strided_posted posted);
      own_rr = omega (arith, end.own_rr, ap (λ (x : ProxyConfig). x.num_qps) end.same_cfg);
      held =
          subst (λ x. Held x (retire w.completions u).pending) (sym (end.same_cfg ∙ qps))
            (subst (Held s.cfg) (sym (end.same_pending ∙ fk.0.same_pending)) k.held);
    }
