-- ===== src/Proxy/WrId.antt =====
-- The identifier of a signaled work request: its local QP and the count that its completion takes
-- off the counter of what is in flight.
use m_kernel.Prelude.{
  ℕ, ◌*◌, ◌/◌, ◌^◌, ◌<◌, ◌≡◌, arith, bit_and, bit_or, u32, bit_or_high_low, bit_and_mask,
}

-- Two `int`s that are at least 0, in the halves of a word.
unfoldable pub encode_wr_id : ℕ → ℕ → ℕ
encode_wr_id local_qp wr_count = bit_or (u32 local_qp * 2 ^ 32) (u32 wr_count)

-- The halves as words, which the code converts to `int`.
unfoldable pub decode_wr_local_qp : ℕ → ℕ
decode_wr_local_qp wr_id = bit_and (wr_id / 2 ^ 32) 0xffffffff

unfoldable pub decode_wr_count : ℕ → ℕ
decode_wr_count wr_id = bit_and wr_id 0xffffffff

-- The local QP and the count of an identifier are the ones that it was made of, for numbers that an
-- `int` holds.
pub decode-encode_wr_id :
    (local_qp wr_count : ℕ)
    → local_qp < 2 ^ 31
    → wr_count < 2 ^ 31
    → (decode_wr_local_qp (encode_wr_id local_qp wr_count) ≡ local_qp)
      × (decode_wr_count (encode_wr_id local_qp wr_count) ≡ wr_count)
unfolding encode_wr_id decode_wr_local_qp decode_wr_count
decode-encode_wr_id q c hq hc = ground (
  arith,
  bit_or_high_low 32 (u32 q) (u32 c),
  bit_and_mask 32 (bit_or (u32 q * 2 ^ 32) (u32 c) / 2 ^ 32),
  bit_and_mask 32 (bit_or (u32 q * 2 ^ 32) (u32 c)),
)
