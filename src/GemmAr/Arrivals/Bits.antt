-- ===== src/GemmAr/Arrivals/Bits.antt =====
-- The number of bits of a word.
use m_kernel.Prelude.{ℕ, arith, ◌≤◌, bit_or, zero, suc, ◌/◌, ◌≡◌, ap}
use m_kernel.Prelude.Words.{bit_or_halves}
use m_kernel.GemmAr.Arrivals.{popc}

-- Setting bits does not make them fewer.
pub popc-bit_or : (w a b : ℕ) → popc w a ≤ popc w (bit_or a b)
unfolding popc
popc-bit_or zero a b = omega arith
popc-bit_or (suc w) a b =
    ground (arith, bit_or_halves a b, popc-bit_or w (a / 2) (b / 2), ap (popc w) (half a b))
  where
    half : (a b : ℕ) → bit_or a b / 2 ≡ bit_or (a / 2) (b / 2)
    half a b = ground (arith, bit_or_halves a b)
