-- ===== src/Proxy/Setup.antt =====
-- The constructor of `Proxy`, and `set_epoch`.
use m_kernel.Prelude.{
  ℕ, ◌+◌, ◌-◌, ◌*◌, ◌/◌, ltb, ◌==◌, if◌then◌else◌, Option, none, some, Bool, [], ◌≤◌, Bool-cases,
  arith, inl, inr, ◌<◌, ◌^◌, u32, ◌≡◌, sym,
}
use m_kernel.Prelude.Int.{pos}
use m_kernel.Types.{ForwardNotify}
use native.Mathlib.Nat.{mul-pos, mul-le-mul_right, mul-le-mul_left}
use mathlib.Core.Path.{subst}
use m_kernel.Proxy.{Proxy, ProxyConfig}

abbrev pub or_default : ℕ → ℕ → ℕ
or_default default n = if n == 0 then default else n

abbrev pub one_if : Bool → ℕ
one_if b = if b then 1 else 0

-- The configuration after the constructor's defaults. `channelize_env` is what the environment
-- variable says, where it is set.
unfoldable pub normalized : ProxyConfig → Option Bool → ProxyConfig
normalized cfg channelize_env =
    let num_qps : ℕ = or_default 1 cfg.num_qps in
    let queues : ℕ = or_default 1 cfg.logical_queues_per_qp in
    record cfg {
      max_inflight = or_default 512 cfg.max_inflight;
      num_qps = num_qps;
      global_num_qps = or_default num_qps cfg.global_num_qps;
      logical_queues_per_qp = if ltb 16 queues then 16 else queues;
      channelize_gpu_peers = elim channelize_env [ none ↦ cfg.channelize_gpu_peers | some b ↦ b ];
    }

-- `kQpSqDepth`, the send queue's depth.
abbrev pub sq_depth : ℕ
sq_depth = 2048

-- `kWrsPerChunk`
unfoldable pub wrs_per_chunk : ProxyConfig → ℕ
wrs_per_chunk cfg = 2 + one_if cfg.enable_remote_tail + one_if cfg.enable_forward_notify

-- `requested` after the cap; the margin is 64.
unfoldable pub chunks_per_qp : ProxyConfig → ℕ
chunks_per_qp cfg =
    let cap : ℕ = sq_depth / wrs_per_chunk cfg - 64 in
    let per_qp_chunk_cap : ℕ = if ltb cap 1 then 1 else cap in
    if ltb per_qp_chunk_cap cfg.max_inflight then per_qp_chunk_cap else cfg.max_inflight

abbrev pub empty_notify : ForwardNotify
empty_notify = record {
  bytes = 0;
  local_offset = 0;
  tile_id = 0;
  lane_id = 0;
  reserved0 = 0;
  src_view = 0;
  epoch = 0;
  reserved1 = 0;
}

-- A product of two `int`s that are not negative, as a limit: it wraps round, and below 0 it lets
-- nothing through, as 0 does.
unfoldable pub int_product : (a b : ℕ) → ℕ
int_product a b = if ltb (u32 (a * b)) (2 ^ 31) then u32 (a * b) else 0

unfoldable pub new_proxy : ProxyConfig → Option Bool → Proxy
new_proxy raw channelize_env =
    let cfg : ProxyConfig = normalized raw channelize_env in
    record {
      cfg = cfg;
      effective_max_inflight = int_product (chunks_per_qp cfg) cfg.num_qps;
      inflight = pos 0;
      qp_rr_idx = 0;
      sender_seq = λ _. 0;
      staging = λ _. 0;
      barrier_token = 0;
      pending = none;
      notify_payload = λ _. empty_notify;
      forward_seen_epoch = λ _. 0;
      forward_scan_cursor = 0;
      calls = 0;
      posted = [];
      retired = 0;
    }

unfoldable pub set_epoch : Proxy → ℕ → Proxy
set_epoch s epoch = record s { cfg = record s.cfg { epoch = epoch }; sender_seq = λ _. 0 }

chunks_per_qp-fits :
    (cfg : ProxyConfig)
    → 1 ≤ cfg.max_inflight
    → (1 ≤ chunks_per_qp cfg) × ((chunks_per_qp cfg + 64) * wrs_per_chunk cfg ≤ sq_depth)
unfolding chunks_per_qp wrs_per_chunk
chunks_per_qp-fits cfg h = elim (Bool-cases cfg.enable_remote_tail) [
  | inl a ↦ elim (Bool-cases cfg.enable_forward_notify) [
    | inl b ↦ rw (a, b) (ground arith, ground arith)
    | inr b ↦ rw (a, b) (ground arith, ground arith)
  ]
  | inr a ↦ elim (Bool-cases cfg.enable_forward_notify) [
    | inl b ↦ rw (a, b) (ground arith, ground arith)
    | inr b ↦ rw (a, b) (ground arith, ground arith)
  ]
]

normalized-max_inflight :
    (raw : ProxyConfig) (env : Option Bool) → 1 ≤ (normalized raw env).max_inflight
unfolding normalized
normalized-max_inflight raw env = ground arith

pub normalized-num_qps : (raw : ProxyConfig) (env : Option Bool) → 1 ≤ (normalized raw env).num_qps
unfolding normalized
normalized-num_qps raw env = ground arith

pub normalized-small :
    (raw : ProxyConfig) (env : Option Bool)
    → raw.num_qps < 2 ^ 31
    → (normalized raw env).num_qps < 2 ^ 31
unfolding normalized
normalized-small raw env h = ground arith

normalized-few :
    (raw : ProxyConfig) (env : Option Bool)
    → raw.num_qps < 2 ^ 21
    → (normalized raw env).num_qps < 2 ^ 21
unfolding normalized
normalized-few raw env h = ground arith

-- What fits one queue fits `q` times into `q` queues.
scaled : (k w q : ℕ) → (k + 64) * w ≤ sq_depth → k * q * w + 64 * w * q ≤ sq_depth * q
scaled k w q h = omega (arith, mul-le-mul_right q h)

pub int_product-eq : (a b : ℕ) → a * b < 2 ^ 31 → int_product a b ≡ a * b
unfolding int_product
int_product-eq a b h = ground arith

-- A QP takes at most 960 commands.
chunks_per_qp-le :
    (cfg : ProxyConfig)
    → (chunks_per_qp cfg + 64) * wrs_per_chunk cfg ≤ sq_depth
    → chunks_per_qp cfg ≤ 960
unfolding wrs_per_chunk
chunks_per_qp-le cfg most =
    omega (arith, mul-le-mul_left (chunks_per_qp cfg + 64) (two_at_least cfg), most)
  where
    two_at_least :
        (cfg : ProxyConfig)
        → 2 ≤ 2 + one_if cfg.enable_remote_tail + one_if cfg.enable_forward_notify
    two_at_least cfg = omega arith

-- In a new proxy that is configured with fewer than 2^21 QPs, whatever else it is configured with: at
-- least one command may be in flight, and the work requests of the commands that may be in flight
-- fit the send queues of all its QPs together, with a margin of 64 commands for each QP.
pub new_proxy-fits :
    (raw : ProxyConfig) (env : Option Bool)
    → raw.num_qps < 2 ^ 21
    → (1 ≤ (new_proxy raw env).effective_max_inflight)
      × ((new_proxy raw env).effective_max_inflight * wrs_per_chunk (new_proxy raw env).cfg
            + 64 * wrs_per_chunk (new_proxy raw env).cfg * (new_proxy raw env).cfg.num_qps
          ≤ sq_depth * (new_proxy raw env).cfg.num_qps)
unfolding new_proxy
new_proxy-fits raw env few =
    let cfg : ProxyConfig = normalized raw env in
    let (least, most) = chunks_per_qp-fits cfg (normalized-max_inflight raw env) in
    let no_wrap : int_product (chunks_per_qp cfg) cfg.num_qps ≡ chunks_per_qp cfg * cfg.num_qps =
      int_product-eq (chunks_per_qp cfg) cfg.num_qps (
        omega (
          arith,
          mul-le-mul_right cfg.num_qps (chunks_per_qp-le cfg most),
          normalized-few raw env few,
        )) in
    (
      omega (arith, no_wrap, mul-pos least (normalized-num_qps raw env)),
      subst
          (λ k.
            k * wrs_per_chunk cfg + 64 * wrs_per_chunk cfg * cfg.num_qps ≤ sq_depth * cfg.num_qps)
          (sym no_wrap) (scaled (chunks_per_qp cfg) (wrs_per_chunk cfg) cfg.num_qps most),
    )
