-- ===== src/Proxy/Collect/Order.antt =====
-- The batch has the writes of the ring in the ring's order, none lost and none twice, for one QP, and
-- within the room that is left in flight.
use m_kernel.Prelude.{
  ℕ, Bool, true, Option, none, some, List, [], ◌∷◌, ◌≡◌, if◌then◌else◌, refl, sym, ◌<◌, arith, inl,
  inr, Bool-cases, ◌-◌, false, ◌&&◌,
}
use m_kernel.Prelude.Int.{pos}
use m_kernel.Types.{TransferCmd}
use m_kernel.Proxy.{Proxy, below}
use m_kernel.Proxy.Collect.{verdict, Collected, collect_loop, may_take, route, routes, collect}
use m_kernel.Proxy.Route.{route_global_qp}
use m_kernel.Proxy.Collect.Spec.{
  Fit, wanted, Held, verdict-own, Outcome, waiting, verdict-route, local_qp-distance,
}
use m_kernel.Proxy.Collect.Turns.{Start, loop-Outcome}

module _ (accept : ℕ → Bool) (token_at n : ℕ) where
  -- With no room in flight the loop takes nothing.
  full_loop :
      (cmds : List TransferCmd) (s : Proxy) (qp : ℕ)
      → below (pos n) 0 s.effective_max_inflight ≡ false
      → collect_loop accept token_at (pos n) cmds s [] qp
        ≡ record { state = s; batch = []; batch_qp = qp; rest = cmds }
  unfolding collect_loop may_take
  full_loop [] s qp e = refl
  full_loop (cmd ∷ cmds) s qp e = rw (collect_loop, may_take, e) refl

  empty_batch-Fit :
      (s : Proxy) (qp : ℕ) → qp < s.cfg.num_qps → Fit s.cfg s.effective_max_inflight n [] qp
  empty_batch-Fit s qp h = record {
    short = omega arith;
    room = λ k. absurd (omega arith);
    own_qp = h;
    one_qp = tt;
  }

  empty_batch-Start :
      (s : Proxy) (qp : ℕ)
      → s.pending ≡ none
      → qp < s.cfg.num_qps
      → Start accept token_at s.cfg s.effective_max_inflight s.qp_rr_idx n s [] qp
  empty_batch-Start s qp e h = record {
    same_cfg = refl;
    same_limit = refl;
    no_pending = e;
    same_rr = refl;
    fit = empty_batch-Fit s qp h;
  }

  pending-Start :
      (s : Proxy) (cmd : TransferCmd) (qp : ℕ)
      → below (pos n) 0 s.effective_max_inflight ≡ true
      → verdict s.cfg cmd ≡ route qp
      → Start accept token_at s.cfg s.effective_max_inflight s.qp_rr_idx n
          (record s { pending = none })
          (cmd ∷ [])
          qp
  unfolding below
  pending-Start s cmd qp e v = record {
    same_cfg = refl;
    same_limit = refl;
    no_pending = refl;
    same_rr = refl;
    fit = record {
      short = omega arith;
      room = λ h. ground arith;
      own_qp = verdict-own s.cfg cmd qp v;
      one_qp = (inr v, tt);
    };
  }

  -- What the collection does for a command put aside.
  unfoldable pub from : List TransferCmd → Proxy → Option TransferCmd → Collected
  from cmds s none = collect_loop accept token_at (pos n) cmds s [] s.qp_rr_idx
  from cmds s (some cmd) =
      if routes s.cfg && below (pos n) 0 s.effective_max_inflight
      then collect_loop accept token_at (pos n) cmds (record s { pending = none }) (cmd ∷ [])
          (route_global_qp s.cfg cmd - s.cfg.qp_base_idx)
      else collect_loop accept token_at (pos n) cmds s [] s.qp_rr_idx

  pub collect-from :
      (cmds : List TransferCmd) (s : Proxy)
      → collect accept token_at (pos n) cmds s ≡ from cmds s s.pending
  unfolding collect from
  collect-from cmds s = elim s.pending [ none ↦ refl | some cmd ↦ refl ]

  pub collect-order :
      (cmds : List TransferCmd) (s : Proxy) (held : Held s.cfg s.pending)
      (rr : s.qp_rr_idx < s.cfg.num_qps)
      → Outcome s.cfg s.effective_max_inflight s.qp_rr_idx n
          (waiting s.pending)
          cmds
          (collect accept token_at (pos n) cmds s)
  unfolding from collect_loop wanted
  collect-order cmds s held rr = rw (collect-from cmds s) (go s.pending refl held)
    where
      go :
          (p : Option TransferCmd)
          → s.pending ≡ p
          → Held s.cfg p
          → Outcome s.cfg s.effective_max_inflight s.qp_rr_idx n (waiting p) cmds (from cmds s p)
      go none e h =
          loop-Outcome accept token_at s.cfg s.effective_max_inflight s.qp_rr_idx n cmds s []
            s.qp_rr_idx (empty_batch-Start s s.qp_rr_idx e rr)
      go (some cmd) e (qp, v) =
          let (routed, at) = verdict-route s.cfg cmd qp v in
          elim (Bool-cases (below (pos n) 0 s.effective_max_inflight)) [
            | inl room ↦
                rw (routed, room, sym (local_qp-distance s.cfg cmd qp at))
                  (loop-Outcome accept token_at s.cfg s.effective_max_inflight s.qp_rr_idx n cmds
                    (record s { pending = none }) (cmd ∷ []) qp (pending-Start s cmd qp room v))
            | inr full ↦
                rw (routed, full, full_loop cmds s s.qp_rr_idx full)
                  (record {
                    taken = [];
                    prefix = refl;
                    order = rw e refl;
                    fit = empty_batch-Fit s s.qp_rr_idx rr;
                    held = rw e (qp, v);
                    same_cfg = refl;
                    same_limit = refl;
                    same_rr = refl;
                  })
          ]
