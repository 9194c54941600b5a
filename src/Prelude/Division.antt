-- ===== src/Prelude/Division.antt =====
-- Quotients and remainders as the two digits of a number.
use Prim.Native.Nat.{ℕ, zero, suc, ◌+◌, ◌*◌, ◌/◌, ◌%◌, ◌<◌}
use mathlib.Core.Path.{◌≡◌, ◌∙◌}
use native.Mathlib.Omega.{arith}
use native.Mathlib.Nat.{
  div-eq_of_lt-le, mul-add-mod_self_right, mod-eq_of_lt, div-lt_iff_lt-mul, mod-lt,
}

pub base-positive : (d x n : ℕ) → x < n * d → 0 < d
base-positive zero x n h = absurd (omega arith)
base-positive (suc d) x n h = omega arith

pub high_digit : (d q r : ℕ) → r < d → (q * d + r) / d ≡ q
high_digit d q r h = div-eq_of_lt-le d (omega arith) (omega arith)

pub low_digit : (d q r : ℕ) → r < d → (q * d + r) % d ≡ r
low_digit d q r h = mul-add-mod_self_right q d r ∙ mod-eq_of_lt h

-- A number below `n * d` has its high digit below `n`.
pub high_digit-lt : (d x n : ℕ) → x < n * d → x / d < n
high_digit-lt d x n h = (div-lt_iff_lt-mul (base-positive d x n h)).1 h

pub low_digit-lt : (d x n : ℕ) → x < n * d → x % d < d
low_digit-lt d x n h = mod-lt x (base-positive d x n h)
