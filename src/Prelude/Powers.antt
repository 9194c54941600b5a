-- ===== src/Prelude/Powers.antt =====
-- The test `n & (n - 1)` for a power of two.
use Prim.Native.Nat.{ℕ, zero, suc, ◌-◌, ◌*◌, ◌/◌, ◌%◌, ◌^◌, ◌≤◌, ◌<◌, bit_and}
use native.Mathlib.Nat.{pow-suc, one-le-pow}
use m_kernel.Prelude.Words.{bit_and_halves, IsPow2}
use mathlib.Core.Path.{◌≡◌, refl}
use native.Mathlib.Omega.{arith}
use native.Mathlib.Decide.{dec_lt, ℕ_discrete}

bit_and_self : (n a : ℕ) → a ≤ n → bit_and a a ≡ a
bit_and_self n zero h = refl
bit_and_self zero (suc a) h = absurd (omega arith)
bit_and_self (suc n) (suc a) h =
    omega (arith, bit_and_halves (suc a) (suc a), bit_and_self n (suc a / 2) (omega arith))

-- `n & (n - 1)` takes the lowest one of `n` away: at an odd number above 1 something is left.
bit_and_pred-odd : (n : ℕ) → 1 < n → n % 2 ≡ 1 → bit_and n (n - 1) ≡ n - 1
bit_and_pred-odd n h odd =
    ground (arith, bit_and_halves n (n - 1), bit_and_self (n / 2) (n / 2) (omega arith), halved)
  where
    halved : (n - 1) / 2 ≡ n / 2
    halved = omega arith

bit_and_pred-even :
    (n : ℕ) → 0 < n → n % 2 ≡ 0 → bit_and n (n - 1) ≡ 2 * bit_and (n / 2) (n / 2 - 1)
bit_and_pred-even n h even = ground (arith, bit_and_halves n (n - 1), halved)
  where
    halved : (n - 1) / 2 ≡ n / 2 - 1
    halved = omega arith

pub bit_and_pred-IsPow2 : (bound n : ℕ) → n ≤ bound → 0 < n → bit_and n (n - 1) ≡ 0 → IsPow2 n
bit_and_pred-IsPow2 zero n h pos e = absurd (omega arith)
bit_and_pred-IsPow2 (suc bound) n h pos e = elim (ℕ_discrete (n % 2) 0) [
  | yes even ↦
      let (k, q) =
        bit_and_pred-IsPow2 bound (n / 2) (omega arith) (omega arith)
          (omega (arith, bit_and_pred-even n pos even)) in
      (suc k, omega (arith, pow-suc 2 k))
  | no odd ↦ elim (dec_lt 1 n) [
    | yes big ↦ absurd (omega (arith, bit_and_pred-odd n big (omega arith)))
    | no one ↦ (0, omega arith)
  ]
]

pub IsPow2-bit_and_pred : (k n : ℕ) → n ≡ 2 ^ k → bit_and n (n - 1) ≡ 0
IsPow2-bit_and_pred zero n e = rw e refl
IsPow2-bit_and_pred (suc k) n e = omega (
  arith,
  pow-suc 2 k,
  one-le-pow k 2,
  bit_and_pred-even n (omega (arith, pow-suc 2 k, one-le-pow k 2)) (omega (arith, pow-suc 2 k)),
  IsPow2-bit_and_pred k (n / 2) (omega (arith, pow-suc 2 k)),
)
