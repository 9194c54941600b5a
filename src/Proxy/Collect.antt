-- ===== src/Proxy/Collect.antt =====
-- Step 1 of the proxy's loop: the batch of commands that is taken from the ring. The queue layout and
-- the flat layout have one loop here; they differ in when a command's QP is looked at.
pub mod Spec
mod Turns
pub mod Order
use m_kernel.Prelude.{
  ℕ, zero, suc, ◌+◌, ◌-◌, ltb, ◌==◌, if◌then◌else◌, Bool, true, false, not, ◌&&◌, ◌||◌, Option,
  none, some, List, [], ◌∷◌, ◌++◌, length,
}
use m_kernel.Prelude.Int.{ℤ}
use m_kernel.Types.{TransferCmd, CmdType}
use m_kernel.Proxy.{Proxy, ProxyConfig, below, batch_size}
use m_kernel.Proxy.Route.{local_qp, route_global_qp}
use m_kernel.Proxy.Barrier.{post_stage_barrier}

-- What the loop does with a command that it has polled.
pub data Verdict : Type 0 where
  notify : Verdict  -- BARRIER_NOTIFY
  ignore : Verdict  -- no command for the proxy, or one routed outside its QPs
  keep : Verdict  -- a write, whichever QP the batch has
  route : ℕ → Verdict  -- a write for this local QP

-- The queue layout routes by lane, and the flat layout by channel if there are channels.
unfoldable pub routes : ProxyConfig → Bool
routes cfg = cfg.use_arrival_queue || cfg.channelize_gpu_peers

unfoldable pub verdict : ProxyConfig → TransferCmd → Verdict
verdict cfg cmd = elim cmd.cmd_type [
  | CmdType.barrier_notify ↦ notify
  | CmdType.write ↦
      if routes cfg then (elim (local_qp cfg cmd) [ none ↦ ignore | some qp ↦ route qp ]) else keep
  | CmdType.empty ↦ ignore
  | CmdType.fence ↦ ignore
]

-- The end of the collection; `rest` is what the ring still holds.
pub record Collected : Type 0 where
  pub state : Proxy
  pub batch : List TransferCmd
  pub batch_qp : ℕ
  pub rest : List TransferCmd

-- The QP of a batch that takes a command of `qp` on, if its QP is `batch_qp` so far.
abbrev pub qp_with : List TransferCmd → ℕ → ℕ → ℕ
qp_with [] qp batch_qp = qp
qp_with (_ ∷ _) qp batch_qp = batch_qp

module _ (accept : ℕ → Bool) (token_at : ℕ) (pre_inflight : ℤ) where
  -- The test of the loop.
  unfoldable pub may_take : Proxy → List TransferCmd → Bool
  may_take s batch =
      ltb (length batch) batch_size && below pre_inflight (length batch) s.effective_max_inflight

  -- The loop, for the commands that the polls find one after another, up to the poll that finds none.
  unfoldable pub collect_loop : List TransferCmd → Proxy → List TransferCmd → ℕ → Collected
  collect_loop [] s batch qp = record { state = s; batch = batch; batch_qp = qp; rest = [] }
  collect_loop (cmd ∷ cmds) s batch qp = elim (may_take s batch) [
    | false ↦ record { state = s; batch = batch; batch_qp = qp; rest = cmd ∷ cmds }
    | true ↦ elim (verdict s.cfg cmd) [
      | notify ↦ collect_loop cmds (post_stage_barrier accept token_at 0 s.cfg.epoch s) batch qp
      | ignore ↦ collect_loop cmds s batch qp
      | keep ↦ collect_loop cmds s (batch ++ (cmd ∷ [])) qp
      | route cmd_qp ↦ elim (cmd_qp == qp_with batch cmd_qp qp) [
        | true ↦ collect_loop cmds s (batch ++ (cmd ∷ [])) (qp_with batch cmd_qp qp)
        | false ↦ record {
          state = record s { pending = some cmd };
          batch = batch;
          batch_qp = qp;
          rest = cmds;
        }
      ]
    ]
  ]

  -- The command put aside comes first, if there is room for it.
  unfoldable pub collect : List TransferCmd → Proxy → Collected
  collect cmds s = elim s.pending [
    | none ↦ collect_loop cmds s [] s.qp_rr_idx
    | some cmd ↦
        if routes s.cfg && below pre_inflight 0 s.effective_max_inflight
        then collect_loop cmds (record s { pending = none }) (cmd ∷ [])
            (route_global_qp s.cfg cmd - s.cfg.qp_base_idx)
        else collect_loop cmds s [] s.qp_rr_idx
  ]
