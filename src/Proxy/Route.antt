-- ===== src/Proxy/Route.antt =====
-- The QP of a command, and the peer's addresses and keys for a QP.
use m_kernel.Prelude.{ℕ, ◌+◌, ◌-◌, ◌%◌, ltb, leb, ◌==◌, if◌then◌else◌, Option, none, some, u8}
use m_kernel.Types.{TransferCmd, max_exchange_qps}
use m_kernel.Proxy.{ProxyConfig, Remote}

-- `route_global_qp`: `reserved0 % (uint8_t)global_num_qps` or `lane_id % global_num_qps`
unfoldable pub route_global_qp : ProxyConfig → TransferCmd → ℕ
route_global_qp cfg cmd =
    if cfg.global_num_qps == 0
    then 0
    else if cfg.channelize_gpu_peers
    then cmd.reserved0 % u8 cfg.global_num_qps
    else cmd.lane_id % cfg.global_num_qps

-- The local QP `global_qp - qp_base_idx`, where it is not outside `[0, num_qps)`.
unfoldable pub local_qp : ProxyConfig → TransferCmd → Option ℕ
local_qp cfg cmd =
    let global_qp : ℕ = route_global_qp cfg cmd in
    if ltb global_qp cfg.qp_base_idx
    then none
    else if leb cfg.num_qps (global_qp - cfg.qp_base_idx)
    then none
    else some (global_qp - cfg.qp_base_idx)

-- A value of its own for the global QP, or else the value for all.
unfoldable pub value_for_qp : (ℕ → ℕ) → ℕ → ℕ → ℕ
value_for_qp by_qp otherwise global_qp =
    let v : ℕ = if ltb global_qp max_exchange_qps then by_qp global_qp else 0 in
    if v == 0 then otherwise else v

-- `remote_..._addr_for_qp` and `remote_..._rkey_for_qp`
unfoldable pub addr_for_qp : ProxyConfig → Remote → ℕ → ℕ
addr_for_qp cfg r qp = value_for_qp r.addr_by_qp r.addr (cfg.qp_base_idx + qp)

unfoldable pub rkey_for_qp : ProxyConfig → Remote → ℕ → ℕ
rkey_for_qp cfg r qp = value_for_qp r.rkey_by_qp r.rkey (cfg.qp_base_idx + qp)
