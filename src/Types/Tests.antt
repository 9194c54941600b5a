-- ===== src/Types/Tests.antt =====
-- types.h at concrete inputs.
use m_kernel.Prelude.{◌≡◌, ◌≢◌, refl, arith}
use m_kernel.Types.{
  peer_rank_for_slot, pack_arrival_work, unpack_arrival_first_tile, unpack_arrival_num_tiles,
}
use m_kernel.Types.Arrival.{unpack-pack_arrival}

wraps_round : peer_rank_for_slot 3 4 1 ≡ 1
unfolding peer_rank_for_slot
wraps_round = refl

packed : pack_arrival_work 5 32 ≡ 0x1f000006
unfolding pack_arrival_work
packed = refl

unpack-pack_arrival_example :
    (unpack_arrival_first_tile (pack_arrival_work 5 32) ≡ 5)
    × (unpack_arrival_num_tiles (pack_arrival_work 5 32) ≡ 32)
    × (pack_arrival_work 5 32 ≢ 0)
unpack-pack_arrival_example = unpack-pack_arrival 5 32 (omega arith) (omega arith)
