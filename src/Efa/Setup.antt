-- ===== src/Efa/Setup.antt =====
-- The constructor of the EFA `Proxy`, `set_epoch` and `reset_inflight`.
use native.Mathlib.Nat.{mul-pos, mul-le-mul_left, mul-le-mul_right}
use m_kernel.Prelude.{
  ℕ, Bool, ◌/◌, ◌≤◌, false, if◌then◌else◌, ltb, ◌*◌, ◌<◌, none, ◌-◌, [], min, ◌==◌, arith, ◌≡◌,
  refl, ◌^◌,
}
use m_kernel.Efa.{Efa, EfaConfig, srd_sq_depth, efa_batch_size, accumulate_spins}
use m_kernel.Prelude.Int.{pos}
use m_kernel.Proxy.Setup.{or_default, int_product, int_product-eq}
use m_kernel.Types.{max_exchange_qps}

-- The budget of one QP: a quarter of its queue with remote flags, less a batch if there is room for
-- one, and the configured number with immediate values.
unfoldable pub efa_qp_cap : (write_imm : Bool) → (sq_depth max_inflight : ℕ) → ℕ
efa_qp_cap write_imm sq_depth max_inflight =
    let quarter : ℕ = sq_depth / 4 in
    let flags_cap : ℕ = if ltb efa_batch_size quarter then quarter - efa_batch_size else quarter in
    let cap_wanted : ℕ = min (if write_imm then max_inflight else flags_cap) max_inflight in
    if cap_wanted == 0 then 1 else cap_wanted

-- The configuration with its defaults.
unfoldable pub efa_normalized : EfaConfig → EfaConfig
efa_normalized cfg =
    let qps : ℕ = or_default 1 cfg.num_qps in
    let num_qps : ℕ = if ltb max_exchange_qps qps then max_exchange_qps else qps in
    let queues : ℕ = or_default 1 cfg.logical_queues_per_qp in
    record cfg {
      max_inflight = or_default 128 cfg.max_inflight;
      num_qps = num_qps;
      global_num_qps = or_default num_qps cfg.global_num_qps;
      logical_queues_per_qp = if ltb 16 queues then 16 else queues;
    }

-- `Proxy::Proxy`, with what `detect_notify_mode` finds in the environment
unfoldable pub new_efa : (write_imm : Bool) → EfaConfig → Efa
new_efa write_imm given =
    let cfg : EfaConfig = efa_normalized given in
    record {
      cfg = cfg;
      write_imm = write_imm;
      effective_max_inflight =
          int_product (efa_qp_cap write_imm (or_default srd_sq_depth cfg.sq_depth) cfg.max_inflight)
            cfg.num_qps;
      inflight = pos 0;
      sender_seq = λ _. 0;
      staging_cursor = 0;
      staging = λ _. 0;
      pending_cmd = none;
      has_pending_barrier = false;
      batch_size_current = 8;
      accum_spins_current = accumulate_spins;
      pending_batch = [];
      pending_batch_qp = 0;
      pending_cpu_head = 0;
      current_fifo_idx = 0;
      cpu_heads = λ _. 0;
      tails = λ _. 0;
      arrivals = λ _. 0;
      cq = [];
      calls = 0;
      posted = [];
    }

unfoldable pub efa_set_epoch : Efa → ℕ → Efa
efa_set_epoch s epoch = record s {
  cfg = record s.cfg { epoch = epoch };
  sender_seq = λ _. 0;
  staging_cursor = 0;
}

unfoldable pub reset_inflight : Efa → Efa
reset_inflight s = record s { inflight = pos 0; has_pending_barrier = false }

efa_qp_cap-pos : (imm : Bool) (sq m : ℕ) → 0 < efa_qp_cap imm sq m
unfolding efa_qp_cap
efa_qp_cap-pos imm sq m = ground arith

efa_qp_cap-fits : (sq m : ℕ) → 4 ≤ sq → 3 * efa_qp_cap false sq m ≤ sq
unfolding efa_qp_cap
efa_qp_cap-fits sq m h = ground arith

efa_normalized-num_qps : (given : EfaConfig) → 0 < (efa_normalized given).num_qps
unfolding efa_normalized
efa_normalized-num_qps given = ground arith

efa_normalized-few : (given : EfaConfig) → (efa_normalized given).num_qps ≤ 24
unfolding efa_normalized
efa_normalized-few given = ground arith

efa_normalized-sq_depth : (given : EfaConfig) → (efa_normalized given).sq_depth ≡ given.sq_depth
unfolding efa_normalized
efa_normalized-sq_depth given = refl

-- A new proxy with remote flags, at a send queue of from four to 2^27 requests: it lets at least one
-- command be in flight, and three requests for each command that it lets be in flight, with a data,
-- a flag and a tail write, fit in the send queues of its QPs together.
pub new_efa-fits :
    (given : EfaConfig)
    → 4 ≤ or_default srd_sq_depth given.sq_depth
    → or_default srd_sq_depth given.sq_depth < 2 ^ 27
    → (0 < (new_efa false given).effective_max_inflight)
      × (3 * (new_efa false given).effective_max_inflight
          ≤ or_default srd_sq_depth given.sq_depth * (new_efa false given).cfg.num_qps)
unfolding new_efa efa_normalized
new_efa-fits given deep bounded =
    let cfg : EfaConfig = efa_normalized given in
    let sq : ℕ = or_default srd_sq_depth given.sq_depth in
    let cap_of : ℕ = efa_qp_cap false sq cfg.max_inflight in
    let most : 3 * cap_of ≤ sq = efa_qp_cap-fits sq cfg.max_inflight deep in
    let times : cap_of * cfg.num_qps ≤ cap_of * 24 =
      mul-le-mul_left cap_of (efa_normalized-few given) in
    let no_wrap : int_product cap_of cfg.num_qps ≡ cap_of * cfg.num_qps =
      int_product-eq cap_of cfg.num_qps (omega arith) in
    rw no_wrap (
      mul-pos (efa_qp_cap-pos false sq cfg.max_inflight) (efa_normalized-num_qps given),
      omega (arith, mul-le-mul_right cfg.num_qps most),
    )
