-- ===== src/Fifo/Bundle.antt =====
-- include/comm/internode/d2h_fifo.cuh: the bundle of one ring for each proxy thread, and the choice
-- of a lane's ring. A ring stands here as the device's handle, five numbers.
mod Lanes
mod Tests
use m_kernel.Prelude.{
  ℕ, suc, ◌-◌, ◌/◌, ◌%◌, ◌^◌, leb, if◌then◌else◌, Option, none, some, Bool, true, false, ◌==◌,
  update,
}
use m_kernel.Prelude.Int.{ℤ, pos, negsuc, to_word}

-- `D2HFifoDevice`: addresses and the capacity.
pub record FifoDevice : Type 0 where
  pub triggers_at : ℕ
  pub head_at : ℕ
  pub tail_at : ℕ
  pub tail_cache_at : ℕ
  pub slots : ℤ

abbrev pub null_device : FifoDevice
null_device = record { triggers_at = 0; head_at = 0; tail_at = 0; tail_cache_at = 0; slots = pos 0 }

-- `D2HFifoDeviceBundle`
pub record FifoBundle : Type 0 where
  pub fifos : ℕ → FifoDevice
  pub num_fifos : ℤ
  pub global_num_qps : ℤ
  pub logical_queues_per_qp : ℤ
  pub qps_per_fifo : ℤ

-- `x > 0 ? x : otherwise`
unfoldable pub positive_or : ℤ → ℤ → ℤ
positive_or (pos (suc n)) otherwise = pos (suc n)
positive_or _ otherwise = otherwise

unfoldable pub make_fifo_bundle : FifoDevice → ℤ → ℤ → FifoBundle
make_fifo_bundle fifo global_num_qps logical_queues_per_qp = record {
  fifos = update (λ _. null_device) 0 fifo;
  num_fifos = pos 1;
  global_num_qps = positive_or global_num_qps (pos 1);
  logical_queues_per_qp = positive_or logical_queues_per_qp (pos 1);
  qps_per_fifo = positive_or global_num_qps (pos 1);
}

-- `resolve_fifo_bundle`: a negative capacity says that `triggers` is the address of a bundle, which
-- `memory` reads; a null address is the error `none`. `env` is the number that the environment
-- variable holds, where it is set.
unfoldable pub resolve_fifo_bundle :
    (memory : ℕ → FifoBundle)
    → FifoDevice
    → (default_num_qps logical_queues_per_qp : ℤ) → (env : Option ℤ) → Option FifoBundle
resolve_fifo_bundle memory fd default_num_qps logical_queues_per_qp env = elim fd.slots [
  | negsuc _ ↦ if fd.triggers_at == 0 then none else some (memory fd.triggers_at)
  | pos _ ↦
      let num_qps : ℤ = positive_or default_num_qps (pos 1) in
      some (
        make_fifo_bundle fd (elim env [ none ↦ num_qps | some v ↦ positive_or v num_qps ])
          logical_queues_per_qp)
]

-- `x > 0 ? (uint32_t)x : otherwise`
unfoldable pub positive_word : ℤ → ℕ → ℕ
positive_word (pos (suc n)) otherwise = suc n % 2 ^ 32
positive_word _ otherwise = otherwise

abbrev pub at_most_one : ℤ → Bool
at_most_one (pos n) = leb n 1
at_most_one (negsuc _) = true

-- The place in `fifos` that `gemm_ar_select_fifo_for_lane` reads.
unfoldable pub fifo_index_for_lane : FifoBundle → ℕ → ℕ
fifo_index_for_lane bundle lane_id =
    if at_most_one bundle.num_fifos
    then 0
    else (let global_num_qps : ℕ = positive_word bundle.global_num_qps 1 in
        let qps_per_fifo : ℕ = positive_word bundle.qps_per_fifo global_num_qps in
        let fifo_idx : ℕ = lane_id % global_num_qps / qps_per_fifo in
        if leb (to_word (2 ^ 32) bundle.num_fifos) fifo_idx
        then to_word (2 ^ 32) bundle.num_fifos - 1
        else fifo_idx)

unfoldable pub select_fifo_for_lane : FifoBundle → ℕ → FifoDevice
select_fifo_for_lane bundle lane_id = bundle.fifos (fifo_index_for_lane bundle lane_id)
