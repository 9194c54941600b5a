-- ===== src/Prelude/Int.antt =====
-- Signed integers over the native numbers, for the C `int`s that may go below zero.
use Prim.Native.Nat.{ℕ, ◌+◌, ◌-◌, ◌/◌, ◌%◌, ◌^◌}
use m_kernel.Prelude.Tests.{leb, ltb, if◌then◌else◌}

-- `negsuc n` is -(n + 1).
pub data ℤ : Type 0 where
  pos : ℕ → ℤ
  negsuc : ℕ → ℤ

-- a - b, as an integer.
abbrev pub sub_ℕ : ℕ → ℕ → ℤ
sub_ℕ a b = if leb b a then pos (a - b) else negsuc (b - a - 1)

-- The conversion to an unsigned word of `m` values.
abbrev pub to_word : ℕ → ℤ → ℕ
to_word m (pos n) = n % m
to_word m (negsuc n) = m - 1 - n % m

abbrev pub neg : ℕ → ℤ
neg a = sub_ℕ 0 a

-- The conversion of a 32-bit word to an `int`.
abbrev pub int_of : ℕ → ℤ
int_of w = if ltb w (2 ^ 31) then pos w else neg (2 ^ 32 - w)

-- Division and remainder of an `int`, which round towards zero.
unfoldable pub quot : ℤ → ℕ → ℤ
quot (pos a) b = pos (a / b)
quot (negsuc a) b = neg ((a + 1) / b)

unfoldable pub remainder : ℤ → ℕ → ℤ
remainder (pos a) b = pos (a % b)
remainder (negsuc a) b = neg ((a + 1) % b)
