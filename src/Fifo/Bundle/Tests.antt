-- ===== src/Fifo/Bundle/Tests.antt =====
-- The bundle at concrete inputs.
use m_kernel.Prelude.{refl, ◌≡◌, arith, none, ◌+◌, ◌<◌, some, ◌*◌, ◌≤◌, ◌%◌}
use m_kernel.Prelude.Int.{pos, negsuc}
use m_kernel.Fifo.Bundle.{FifoBundle, fifo_index_for_lane, resolve_fifo_bundle, null_device}
use m_kernel.Fifo.Bundle.Lanes.{Counts, fifo_index-share}

-- 12 QPs over 4 rings.
abbrev four_rings : FifoBundle
four_rings = record {
  fifos = λ i. record null_device { triggers_at = 4096 + i; slots = pos 1024 };
  num_fifos = pos 4;
  global_num_qps = pos 12;
  logical_queues_per_qp = pos 1;
  qps_per_fifo = pos 3;
}

abbrev four_rings-Counts : Counts four_rings 4 12 3
four_rings-Counts = record {
  num_fifos = refl;
  global_num_qps = refl;
  qps_per_fifo = refl;
  some_fifo = omega arith;
  some_qp = omega arith;
  some_share = omega arith;
  fifos_fit = omega arith;
  qps_fit = omega arith;
  share_fits = omega arith;
}

fifo_index-share_example :
    (fifo_index_for_lane four_rings 20 < 4)
    × (fifo_index_for_lane four_rings 20 * 3 ≤ 20 % 12)
    × (20 % 12 < (fifo_index_for_lane four_rings 20 + 1) * 3)
fifo_index-share_example = fifo_index-share four_rings 4 12 3 20 four_rings-Counts (omega arith)

by_address :
    resolve_fifo_bundle
      (λ _. four_rings)
      (record null_device { triggers_at = 64; slots = negsuc 0 })
      (pos 8)
      (pos 1)
      none
    ≡ some four_rings
unfolding resolve_fifo_bundle
by_address = refl
