-- ===== src/Proxy/Collect/Spec.antt =====
-- What a collection of commands is to return, and the lemmas on verdicts.
use m_kernel.Prelude.{
  ℕ, ◌+◌, true, Option, none, some, List, [], ◌∷◌, ◌++◌, length, All, ◌≡◌, ◌≤◌, ◌⊎◌, ◌<◌, arith,
  ◌-◌,
}
use m_kernel.Types.{TransferCmd}
use m_kernel.Proxy.{ProxyConfig, batch_size}
use m_kernel.Proxy.Collect.{verdict, Collected, qp_with, notify, ignore, keep, route, routes}
use m_kernel.Proxy.Route.{local_qp, route_global_qp}

-- The writes among the commands that this proxy is to post, in their order.
unfoldable pub wanted : ProxyConfig → List TransferCmd → List TransferCmd
wanted cfg [] = []
wanted cfg (cmd ∷ cmds) = elim (verdict cfg cmd) [
  | notify ↦ wanted cfg cmds
  | ignore ↦ wanted cfg cmds
  | keep ↦ cmd ∷ wanted cfg cmds
  | route _ ↦ cmd ∷ wanted cfg cmds
]

abbrev pub waiting : Option TransferCmd → List TransferCmd
waiting none = []
waiting (some cmd) = cmd ∷ []

-- A batch within its bounds, with `n` commands in flight before it, for one QP.
pub record Fit (cfg : ProxyConfig) (limit n : ℕ) (batch : List TransferCmd) (qp : ℕ) : Type 0 where
  pub short : length batch ≤ batch_size
  pub room : 0 < length batch → n + length batch ≤ limit
  pub own_qp : qp < cfg.num_qps
  pub one_qp : All (λ cmd. (verdict cfg cmd ≡ keep) ⊎ (verdict cfg cmd ≡ route qp)) batch

-- A command that is put aside is one for a QP of this proxy.
abbrev pub Held : ProxyConfig → Option TransferCmd → Type 0
Held cfg none = Unit
Held cfg (some cmd) = (qp : ℕ) × (verdict cfg cmd ≡ route qp)

-- The end of a collection of `cmds` that began with `batch`.
pub record Outcome (cfg : ProxyConfig) (limit rr n : ℕ) (batch cmds : List TransferCmd)
    (r : Collected) : Type 0 where
  pub taken : List TransferCmd
  pub prefix : cmds ≡ taken ++ r.rest
  pub order : batch ++ wanted cfg taken ≡ r.batch ++ waiting r.state.pending
  pub fit : Fit cfg limit n r.batch r.batch_qp
  pub held : Held cfg r.state.pending
  pub same_cfg : r.state.cfg ≡ cfg
  pub same_limit : r.state.effective_max_inflight ≡ limit
  pub same_rr : r.state.qp_rr_idx ≡ rr

pub local_qp-distance :
    (cfg : ProxyConfig) (cmd : TransferCmd) (qp : ℕ)
    → local_qp cfg cmd ≡ some qp
    → qp ≡ route_global_qp cfg cmd - cfg.qp_base_idx
unfolding local_qp
local_qp-distance cfg cmd qp e = ground arith

-- A command with a QP is routed in this layout, and its QP is the distance from the first one.
pub verdict-route :
    (cfg : ProxyConfig) (cmd : TransferCmd) (qp : ℕ)
    → verdict cfg cmd ≡ route qp
    → (routes cfg ≡ true) × (local_qp cfg cmd ≡ some qp)
unfolding verdict
verdict-route cfg cmd qp e = (ground arith, ground arith)

pub local_qp-own :
    (cfg : ProxyConfig) (cmd : TransferCmd) (qp : ℕ) → local_qp cfg cmd ≡ some qp → qp < cfg.num_qps
unfolding local_qp
local_qp-own cfg cmd qp e = ground arith

pub verdict-own :
    (cfg : ProxyConfig) (cmd : TransferCmd) (qp : ℕ) → verdict cfg cmd ≡ route qp → qp < cfg.num_qps
verdict-own cfg cmd qp e = local_qp-own cfg cmd qp (verdict-route cfg cmd qp e).1

pub qp_with-own : (batch : List TransferCmd) (q qp n : ℕ) → q < n → qp < n → qp_with batch q qp < n
qp_with-own [] q qp n h k = h
qp_with-own (b ∷ batch) q qp n h k = k
