-- ===== src/Prelude/Smear.antt =====
-- `v |= v >> 1; v |= v >> 2; ...`, which sets all bits below the highest one.
use Prim.Native.Nat.{ℕ, zero, suc, ◌+◌, ◌-◌, ◌*◌, ◌/◌, ◌%◌, ◌^◌, ◌<◌, ◌≤◌, bit_or}
use m_kernel.Prelude.Words.{bit_or_halves, IsPow2}
use native.Mathlib.Nat.{div-div-eq-div-mul, pow-suc}
use mathlib.Core.Path.{sym, ◌≡◌, refl, ap, ◌∙◌}
use native.Mathlib.Omega.{arith}
use native.Mathlib.Decide.{dec_lt}
use Prim.Native.Nat.{max}

-- Bit `i` of a word.
bit : (i : ℕ) → ℕ → ℕ
bit zero x = x % 2
bit (suc i) x = bit i (x / 2)

bit-or : (i a b : ℕ) → bit i (bit_or a b) ≡ max (bit i a) (bit i b)
unfolding bit
bit-or zero a b = omega (arith, bit_or_halves a b)
bit-or (suc i) a b = ap (bit i) (half a b) ∙ bit-or i (a / 2) (b / 2)
  where
    half : (a b : ℕ) → bit_or a b / 2 ≡ bit_or (a / 2) (b / 2)
    half a b = omega (arith, bit_or_halves a b)

bit-le : (i x : ℕ) → bit i x ≤ 1
unfolding bit
bit-le zero x = omega arith
bit-le (suc i) x = bit-le i (x / 2)

-- A shift by `m` bits.
bit-shift : (m i x : ℕ) → bit i (x / 2 ^ m) ≡ bit (i + m) x
unfolding bit
bit-shift zero i x = ap (bit i) (whole x) ∙ ap (λ j. bit j x) (same i)
  where
    whole : (x : ℕ) → x / 2 ^ 0 ≡ x
    whole x = omega arith

    same : (i : ℕ) → i ≡ i + 0
    same i = omega arith
bit-shift (suc m) i x =
    ap (bit i) (shift_one m x) ∙ bit-shift m i (x / 2) ∙ ap (λ j. bit j x) (later i m)
  where
    turn : (p : ℕ) → p * 2 ≡ 2 * p
    turn p = omega arith

    shift_one : (m x : ℕ) → x / 2 ^ suc m ≡ x / 2 / 2 ^ m
    shift_one m x =
        ap (λ d. x / d) (pow-suc 2 m ∙ turn (2 ^ m)) ∙ sym (div-div-eq-div-mul x 2 (2 ^ m))

    later : (i m : ℕ) → suc (i + m) ≡ i + suc m
    later i m = omega arith

-- The bits above `k` are 0, and those from `k` down to `k + 1 - m` are 1.
IsFilled : (k m v : ℕ) → Type 0
IsFilled k m v = ((i : ℕ) → k < i → bit i v ≡ 0) × ((i : ℕ) → i ≤ k → k < i + m → bit i v ≡ 1)

fill : (k m v : ℕ) → IsFilled k m v → IsFilled k (m + m) (bit_or v (v / 2 ^ m))
unfolding IsFilled
fill k m v (above, ones) = (
  λ i h.
      omega
        (arith, bit-or i v (v / 2 ^ m), bit-shift m i v, above i h, above (i + m) (omega arith)),
  λ i le near. elim (dec_lt k (i + m)) [
    | yes close ↦ omega (arith, bit-or i v (v / 2 ^ m), ones i le close, bit-le i (v / 2 ^ m))
    | no far ↦ omega (
      arith,
      bit-or i v (v / 2 ^ m),
      bit-shift m i v,
      ones (i + m) (omega arith) (omega arith),
      bit-le i v,
    )
  ],
)

bit-none : (i : ℕ) → bit i 0 ≡ 0
unfolding bit
bit-none zero = refl
bit-none (suc i) = bit-none i

lowest : (n : ℕ) → 0 < n → n / 2 ≡ 0 → IsFilled 0 1 n
unfolding bit IsFilled
lowest n some small = (above, ones)
  where
    above : (i : ℕ) → 0 < i → bit i n ≡ 0
    above zero h = absurd (omega arith)
    above (suc i) h = ap (bit i) small ∙ bit-none i

    ones : (i : ℕ) → i ≤ 0 → 0 < i + 1 → bit i n ≡ 1
    ones zero le near = omega arith
    ones (suc i) le near = absurd (omega arith)

raised : (k n : ℕ) → IsFilled k 1 (n / 2) → IsFilled (suc k) 1 n
unfolding bit IsFilled
raised k n (zeros, ones) = (above, top_one)
  where
    above : (i : ℕ) → suc k < i → bit i n ≡ 0
    above zero h = absurd (omega arith)
    above (suc i) h = zeros i (omega arith)

    top_one : (i : ℕ) → i ≤ suc k → suc k < i + 1 → bit i n ≡ 1
    top_one zero le near = absurd (omega arith)
    top_one (suc i) le near = ones i (omega arith) (omega arith)

-- The highest bit of a number of `w` bits.
top :
    (w n : ℕ)
    → 0 < n
    → n < 2 ^ w
    → (k : ℕ) × (k < w) × (2 ^ k ≤ n) × (n < 2 ^ suc k) × IsFilled k 1 n
unfolding bit IsFilled
top zero n some low = absurd (omega arith)
top (suc w) n some low = elim (dec_lt 0 (n / 2)) [
  | no small ↦ (0, omega arith, omega arith, omega arith, lowest n some (omega arith))
  | yes more ↦
      let (k, lt, ge, under, (zeros, ones)) =
        top w (n / 2) more (omega (arith, low, pow-suc 2 w)) in
      (
        suc k,
        omega arith,
        omega (arith, ge, pow-suc 2 k),
        omega (arith, under, pow-suc 2 (suc k)),
        raised k n (zeros, ones),
      )
]

no_bits : (f v : ℕ) → v ≤ f → ((i : ℕ) → bit i v ≡ 0) → v ≡ 0
unfolding bit
no_bits zero v le none_set = omega arith
no_bits (suc f) v le none_set = elim (dec_lt 0 v) [
  | no h ↦ omega arith
  | yes h ↦ omega (arith, none_set 0, no_bits f (v / 2) (omega arith) (λ i. none_set (suc i)))
]

all_ones :
    (n v : ℕ) → ((i : ℕ) → i < n → bit i v ≡ 1) → ((i : ℕ) → n ≤ i → bit i v ≡ 0) → v + 1 ≡ 2 ^ n
unfolding bit
all_ones zero v ones zeros = omega (arith, no_bits v v (omega arith) (λ i. zeros i (omega arith)))
all_ones (suc n) v ones zeros = omega (
  arith,
  ones 0 (omega arith),
  pow-suc 2 n,
  all_ones n (v / 2) (λ i lt. ones (suc i) (omega arith)) (λ i le. zeros (suc i) (omega arith)),
)

-- The five steps, for a word of 32 bits.
unfoldable pub smear : ℕ → ℕ
smear v0 =
    let v1 : ℕ = bit_or v0 (v0 / 2 ^ 1) in
    let v2 : ℕ = bit_or v1 (v1 / 2 ^ 2) in
    let v4 : ℕ = bit_or v2 (v2 / 2 ^ 4) in
    let v8 : ℕ = bit_or v4 (v4 / 2 ^ 8) in bit_or v8 (v8 / 2 ^ 16)

-- `smear (c - 1) + 1` is the least power of two that is at least `c`.
pub smear-IsPow2 :
    (c : ℕ)
    → 1 < c
    → c ≤ 2 ^ 32
    → IsPow2 (smear (c - 1) + 1) × (c ≤ smear (c - 1) + 1) × (smear (c - 1) + 1 < 2 * c)
unfolding smear IsFilled
smear-IsPow2 c some low =
    let (k, lt, ge, under, filled) = top 32 (c - 1) (omega arith) (omega arith) in
    let (zeros, ones) =
      fill k 16 _ (fill k 8 _ (fill k 4 _ (fill k 2 _ (fill k 1 (c - 1) filled)))) in
    let whole : smear (c - 1) + 1 ≡ 2 ^ suc k =
      all_ones (suc k) (smear (c - 1)) (λ i h. ones i (omega arith) (omega arith))
        (λ i h. zeros i (omega arith)) in
    ((suc k, whole), omega (arith, whole, under), omega (arith, whole, ge, pow-suc 2 k))
