-- ===== src/Prelude/Words.antt =====
-- Machine words as numbers below a power of two, and the two bit operations of the program at
-- every width: `|` of disjoint fields, and `&` with a mask of low ones.
use Prim.Native.Nat.{ℕ, zero, suc, ◌+◌, ◌-◌, ◌*◌, ◌/◌, ◌%◌, ◌^◌, ◌≤◌, ◌<◌, min, max}
use Prim.Native.Nat.{bit_and, bit_or, digits, bit_and-bitwise, bit_or-bitwise}
use mathlib.Core.Path.{sym, ◌≡◌, refl, ap, ◌∙◌}
use mathlib.Core.Logic.{◌≢◌}
use native.Mathlib.Omega.{arith}
use native.Mathlib.Nat.{pow-le-pow_right, pow-suc, one-le-pow, mod-eq_of_lt, mod-lt, div-add-mod}
use native.Mathlib.Nat.{add-mul-mod_self_left}
use native.Mathlib.Decide.{dec_lt}

abbrev pub u8 : ℕ → ℕ
u8 n = n % 2 ^ 8

abbrev pub u16 : ℕ → ℕ
u16 n = n % 2 ^ 16

abbrev pub u32 : ℕ → ℕ
u32 n = n % 2 ^ 32

abbrev pub u64 : ℕ → ℕ
u64 n = n % 2 ^ 64

-- Spare fuel changes nothing once it covers the first number.
module _ (z : ℕ → ℕ) (f : ℕ → ℕ → ℕ) where
  spare_fuel : (a fuel more b : ℕ) → a ≤ fuel → a ≤ more → digits z f fuel a b ≡ digits z f more a b
  spare_fuel zero zero zero b p q = refl
  spare_fuel zero zero (suc m) b p q = refl
  spare_fuel zero (suc n) zero b p q = refl
  spare_fuel zero (suc n) (suc m) b p q = refl
  spare_fuel (suc a) zero m b p q = absurd (omega arith)
  spare_fuel (suc a) (suc n) zero b p q = absurd (omega arith)
  spare_fuel (suc a) (suc n) (suc m) b p q =
      ap (λ t. t * 2 + f (suc a % 2) (b % 2))
        (spare_fuel (suc a / 2) n m (b / 2) (omega arith) (omega arith))

  halve :
      (a b : ℕ)
      → digits z f (suc a) (suc a) b
        ≡ digits z f (suc a / 2) (suc a / 2) (b / 2) * 2 + f (suc a % 2) (b % 2)
  halve a b =
      ap (λ t. t * 2 + f (suc a % 2) (b % 2))
        (spare_fuel (suc a / 2) a (suc a / 2) (b / 2) (omega arith) (omega arith))

zero-bit_or : (b : ℕ) → bit_or 0 b ≡ b
zero-bit_or b = bit_or-bitwise 0 b

zero-bit_and : (b : ℕ) → bit_and 0 b ≡ 0
zero-bit_and b = bit_and-bitwise 0 b

pub bit_or_halves : (a b : ℕ) → bit_or a b ≡ bit_or (a / 2) (b / 2) * 2 + max (a % 2) (b % 2)
bit_or_halves zero b = omega (arith, zero-bit_or b, zero-bit_or (b / 2))
bit_or_halves (suc a) b = simp bit_or-bitwise (halve (λ y. y) max a b)

pub bit_and_halves : (a b : ℕ) → bit_and a b ≡ bit_and (a / 2) (b / 2) * 2 + min (a % 2) (b % 2)
bit_and_halves zero b = omega (arith, zero-bit_and b, zero-bit_and (b / 2))
bit_and_halves (suc a) b = simp bit_and-bitwise (halve (λ y. 0) min a b)

-- The bound `n` on `a` is what the recursion goes down.
bit_or-zero_below : (n a : ℕ) → a ≤ n → bit_or a 0 ≡ a
bit_or-zero_below n zero h = refl
bit_or-zero_below zero (suc a) h = absurd (omega arith)
bit_or-zero_below (suc n) (suc a) h =
    omega (arith, bit_or_halves (suc a) 0, bit_or-zero_below n (suc a / 2) (omega arith))

bit_and-zero_below : (n a : ℕ) → a ≤ n → bit_and a 0 ≡ 0
bit_and-zero_below n zero h = refl
bit_and-zero_below zero (suc a) h = absurd (omega arith)
bit_and-zero_below (suc n) (suc a) h =
    omega (arith, bit_and_halves (suc a) 0, bit_and-zero_below n (suc a / 2) (omega arith))

shift_once : (hi k : ℕ) → hi * 2 ^ suc k ≡ 2 * (hi * 2 ^ k)
shift_once hi k = omega (arith, ap (λ (t : ℕ). hi * t) (pow-suc 2 k))

-- A field above `k` bits and one within them: `|` is the sum, in either order.
pub bit_or_high_low : (k hi lo : ℕ) → lo < 2 ^ k → bit_or (hi * 2 ^ k) lo ≡ hi * 2 ^ k + lo
bit_or_high_low zero hi lo h = ground (arith, bit_or-zero_below hi hi (omega arith))
bit_or_high_low (suc k) hi lo h = ground (
  arith,
  bit_or_halves (hi * 2 ^ suc k) lo,
  shift_once hi k,
  pow-suc 2 k,
  bit_or_high_low k hi (lo / 2),
)

pub bit_or_low_high : (k hi lo : ℕ) → lo < 2 ^ k → bit_or lo (hi * 2 ^ k) ≡ hi * 2 ^ k + lo
bit_or_low_high zero hi lo h = ground (arith, zero-bit_or hi)
bit_or_low_high (suc k) hi lo h = ground (
  arith,
  bit_or_halves lo (hi * 2 ^ suc k),
  shift_once hi k,
  pow-suc 2 k,
  bit_or_low_high k hi (lo / 2),
)

mod_twice : (x p : ℕ) → 0 < p → x % (2 * p) ≡ x / 2 % p * 2 + x % 2
mod_twice x p h =
    ap (λ t. t % (2 * p)) split
    ∙ add-mul-mod_self_left low (2 * p) (x / 2 / p)
    ∙ mod-eq_of_lt (omega (arith, mod-lt (x / 2) h))
  where
    low : ℕ
    low = x / 2 % p * 2 + x % 2

    split : x ≡ low + 2 * p * (x / 2 / p)
    split = omega (arith, div-add-mod (x / 2) p)

-- `x & (2 ^ k - 1)` is the remainder.
pub bit_and_mask : (k x : ℕ) → bit_and x (2 ^ k - 1) ≡ x % 2 ^ k
bit_and_mask zero x = ground (arith, bit_and-zero_below x x (omega arith))
bit_and_mask (suc k) x = ground (
  arith,
  bit_and_halves x (2 ^ suc k - 1),
  pow-suc 2 k,
  one-le-pow k 2,
  mod_twice x (2 ^ k),
  bit_and_mask k (x / 2),
)

-- Two different numbers less than `m` apart have different remainders.
pub mod-ne : (a b m : ℕ) → a < b → b < a + m → a % m ≢ b % m
mod-ne a b m h k e = elim (dec_lt (a / m) (b / m)) [
  | yes up ↦ grind (arith, div-add-mod a m, div-add-mod b m)
  | no same ↦ grind (arith, div-add-mod a m, div-add-mod b m)
]

-- `n` is a power of two.
abbrev pub IsPow2 : ℕ → Type 0
IsPow2 n = (k : ℕ) × (n ≡ 2 ^ k)

-- A remainder by a power of two is found in the remainder by a larger one.
pow-split : (k d : ℕ) → 2 ^ (k + d) ≡ 2 ^ k * 2 ^ d
pow-split zero d = ap (λ m. 2 ^ m) same ∙ omega arith
  where
    same : 0 + d ≡ d
    same = omega arith
pow-split (suc k) d = ap (λ m. 2 ^ m) same ∙ omega (arith, pow-suc 2 (k + d), pow-split k d, grow)
  where
    same : suc k + d ≡ suc (k + d)
    same = omega arith

    grow : 2 ^ suc k * 2 ^ d ≡ 2 * (2 ^ k * 2 ^ d)
    grow = ap (λ (t : ℕ). t * 2 ^ d) (pow-suc 2 k) ∙ omega arith

pub mod-narrow : (k n x : ℕ) → k ≤ n → x % 2 ^ n % 2 ^ k ≡ x % 2 ^ k
mod-narrow k n x h = sym (
    ap (λ t. t % 2 ^ k) split
    ∙ add-mul-mod_self_left (x % 2 ^ n) (2 ^ k) (2 ^ (n - k) * (x / 2 ^ n)))
  where
    wide : 2 ^ n ≡ 2 ^ k * 2 ^ (n - k)
    wide = ap (λ m. 2 ^ m) (omega arith) ∙ pow-split k (n - k)

    split : x ≡ x % 2 ^ n + 2 ^ k * (2 ^ (n - k) * (x / 2 ^ n))
    split = omega (arith, div-add-mod x (2 ^ n), ap (λ (t : ℕ). t * (x / 2 ^ n)) wide)

-- A power of two of at most `2 ^ n` has an exponent of at most `n`.
pub exponent-le : (k n : ℕ) → 2 ^ k ≤ 2 ^ n → k ≤ n
exponent-le k n h = elim (dec_lt n k) [
  | no le ↦ omega arith
  | yes lt ↦ absurd (omega (arith, pow-suc 2 n, one-le-pow n 2, pow-le-pow_right two lt))
]
  where
    two : 0 < 2
    two = omega arith
