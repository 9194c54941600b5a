-- ===== src/Types/Arrival.antt =====
-- The packed arrival word of types.h is read back exactly, and is never the "not ready" word.
use m_kernel.Prelude.{
  ℕ, ◌+◌, ◌-◌, ◌*◌, ◌/◌, ◌^◌, ◌≤◌, ◌<◌, ◌≡◌, ◌≢◌, arith, bit_or_low_high, bit_and_mask, ◌==◌,
  if◌then◌else◌,
}
use m_kernel.Types.{pack_arrival_work, unpack_arrival_first_tile, unpack_arrival_num_tiles}

-- The run as a positive number of tiles.
abbrev pub run_length : ℕ → ℕ
run_length n = if n == 0 then 1 else n

-- Within their fields, the two parts of the word add up.
pub pack_arrival_sum :
    (first n : ℕ)
    → first + 1 < 2 ^ 24
    → n ≤ 256
    → pack_arrival_work first n ≡ (run_length n - 1) * 2 ^ 24 + (first + 1)
unfolding pack_arrival_work
pack_arrival_sum first n hf hn =
    ground (arith, bit_or_low_high 24 (run_length n - 1) (first + 1) (omega arith))

-- A first tile below 2^24 - 1 and a run of at most 256 tiles are read back from the packed word
-- (an empty run as one tile), and the word is never the 0 of an empty slot.
pub unpack-pack_arrival :
    (first n : ℕ)
    → first + 1 < 2 ^ 24
    → n ≤ 256
    → (unpack_arrival_first_tile (pack_arrival_work first n) ≡ first)
      × (unpack_arrival_num_tiles (pack_arrival_work first n) ≡ run_length n)
      × (pack_arrival_work first n ≢ 0)
unfolding unpack_arrival_first_tile unpack_arrival_num_tiles
unpack-pack_arrival first n hf hn = ground (
  arith,
  pack_arrival_sum first n hf hn,
  bit_and_mask 24 (pack_arrival_work first n),
  bit_and_mask 8 (pack_arrival_work first n / 2 ^ 24),
)
