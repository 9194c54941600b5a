-- ===== src/GemmAr/Bands.antt =====
-- The order that walks bands of rows column by column, `slice_super_m_decode`.
use native.Mathlib.Nat.{mul-le-mul_right}
use mathlib.Core.Path.{subst}
use m_kernel.Prelude.{
  ℕ, ◌/◌, ◌*◌, ◌<◌, if◌then◌else◌, ◌+◌, ◌-◌, ltb, ◌≡◌, arith, high_digit, ◌%◌, ap, low_digit, refl,
  if_known, mod-lt, ◌≤◌, high_digit-lt, ltb→lt, div-mul-le_self, ltb→le, ◌∙◌, le→ltb, lt→ltb,
  div-add-mod',
}
use m_kernel.GemmAr.{in_bands, in_tail, slice_super_m_decode}
use m_kernel.GemmAr.Visits.{two_digits-lt}

-- The task, counted from the first of its slice, of a tile.
abbrev pub band_task : (rows cols super_m rb col : ℕ) → ℕ
band_task rows cols super_m rb col =
    let super_rows : ℕ = rows / super_m * super_m in
    if ltb rb super_rows
    then rb / super_m * (super_m * cols) + (col * super_m + rb % super_m)
    else super_rows * cols + (col * (rows - super_rows) + (rb - super_rows))

sliced :
    (rows cols super_m slice x : ℕ)
    → x < rows * cols
    → slice_super_m_decode (slice * (rows * cols) + x) rows cols super_m ≡ (
        if ltb x (rows / super_m * super_m * cols)
        then in_bands slice x rows cols super_m
        else in_tail slice (x - rows / super_m * super_m * cols) rows (rows / super_m * super_m))
unfolding slice_super_m_decode
sliced rows cols super_m slice x h = rw (high_digit (rows * cols) slice x h) (
    ap
      (λ y.
        if ltb y (rows / super_m * super_m * cols)
        then in_bands slice y rows cols super_m
        else in_tail slice (y - rows / super_m * super_m * cols) rows (rows / super_m * super_m))
      (the_rest))
  where
    the_rest : slice * (rows * cols) + x - slice * (rows * cols) ≡ x
    the_rest = omega arith

in_bands-tile :
    (rows cols super_m slice band col r : ℕ)
    → r < super_m
    → col < cols
    → in_bands slice (band * (super_m * cols) + (col * super_m + r)) rows cols super_m
      ≡ (slice * rows + band * super_m + r, col)
unfolding in_bands
in_bands-tile rows cols super_m slice band col r hr hc =
    rw
      (
        high_digit (super_m * cols) band (col * super_m + r) inside,
        the_rest,
        high_digit super_m col r hr,
        low_digit super_m col r hr,
      )
      refl
  where
    inside : col * super_m + r < super_m * cols
    inside = omega (arith, two_digits-lt cols super_m col r hc hr)

    the_rest :
        band * (super_m * cols) + (col * super_m + r) - band * (super_m * cols) ≡ col * super_m + r
    the_rest = omega arith

in_tail-tile :
    (rows super_rows slice col r : ℕ)
    → r < rows - super_rows
    → in_tail slice (col * (rows - super_rows) + r) rows super_rows
      ≡ (slice * rows + super_rows + r, col)
unfolding in_tail
in_tail-tile rows super_rows slice col r h =
    rw (high_digit (rows - super_rows) col r h, low_digit (rows - super_rows) col r h) refl

tail-lt :
    (super_rows tail_rows cols col r : ℕ)
    → col < cols
    → r < tail_rows
    → super_rows * cols + (col * tail_rows + r) < (super_rows + tail_rows) * cols
tail-lt super_rows tail_rows cols col r hc hr =
    omega (arith, two_digits-lt cols tail_rows col r hc hr)

bands-lt :
    (bands super_m cols band col r : ℕ)
    → band < bands
    → col < cols
    → r < super_m
    → band * (super_m * cols) + (col * super_m + r) < bands * super_m * cols
bands-lt bands super_m cols band col r hb hc hr =
    let inside : col * super_m + r < super_m * cols =
      omega (arith, two_digits-lt cols super_m col r hc hr) in
    omega (arith, two_digits-lt bands (super_m * cols) band (col * super_m + r) hb inside)

-- Task `x` of a slice is one of the slice's, and is decoded to the tile.
Visited : (rows cols super_m slice rb col : ℕ) → ℕ → Type 0
Visited rows cols super_m slice rb col x =
    (x < rows * cols)
    × (slice_super_m_decode (slice * (rows * cols) + x) rows cols super_m
        ≡ (slice * rows + rb, col))

low-Visited :
    (rows cols super_m slice rb col : ℕ)
    → 0 < super_m
    → rb < rows / super_m * super_m
    → col < cols
    → Visited rows cols super_m slice rb col
        (rb / super_m * (super_m * cols) + (col * super_m + rb % super_m))
unfolding Visited
low-Visited rows cols super_m slice rb col hm low hc =
    let x : ℕ = rb / super_m * (super_m * cols) + (col * super_m + rb % super_m) in
    let r_lt : rb % super_m < super_m = mod-lt rb hm in
    let in_band : x < rows / super_m * super_m * cols =
      bands-lt (rows / super_m) super_m cols (rb / super_m) col (rb % super_m)
        (high_digit-lt super_m rb (rows / super_m) low) hc r_lt in
    let in_slice : x < rows * cols =
      omega (arith, mul-le-mul_right cols (div-mul-le_self rows super_m)) in
    (
      in_slice,
      sliced rows cols super_m slice x in_slice
          ∙ ap
              (λ b.
                if b
                then in_bands slice x rows cols super_m
                else in_tail slice (x - rows / super_m * super_m * cols) rows
                    (rows / super_m * super_m))
              (lt→ltb x (rows / super_m * super_m * cols) in_band)
          ∙ in_bands-tile rows cols super_m slice (rb / super_m) col (rb % super_m) r_lt hc
          ∙ ap (λ row. (row, col)) (omega (arith, div-add-mod' rb super_m)),
    )

high-Visited :
    (rows cols super_m slice rb col : ℕ)
    → rows / super_m * super_m ≤ rb
    → rb < rows
    → col < cols
    → Visited rows cols super_m slice rb col (
        rows / super_m * super_m * cols
        + (col * (rows - rows / super_m * super_m) + (rb - rows / super_m * super_m)))
unfolding Visited
high-Visited rows cols super_m slice rb col high hr hc =
    let super_rows : ℕ = rows / super_m * super_m in
    let y : ℕ = col * (rows - super_rows) + (rb - super_rows) in
    let r_lt : rb - super_rows < rows - super_rows = omega arith in
    let in_slice : super_rows * cols + y < rows * cols =
      subst (λ z. super_rows * cols + y < z * cols) (omega arith)
        (tail-lt super_rows (rows - super_rows) cols col (rb - super_rows) hc r_lt) in
    (
      in_slice,
      sliced rows cols super_m slice (super_rows * cols + y) in_slice
          ∙ ap
              (λ b.
                if b
                then in_bands slice (super_rows * cols + y) rows cols super_m
                else in_tail slice (super_rows * cols + y - super_rows * cols) rows super_rows)
              (le→ltb (super_rows * cols + y) (super_rows * cols) (omega arith))
          ∙ ap (λ z. in_tail slice z rows super_rows) (omega arith)
          ∙ in_tail-tile rows super_rows slice col (rb - super_rows) r_lt
          ∙ ap (λ row. (row, col)) (omega arith),
    )

-- Where a band has a positive number of rows: every tile of a slice is visited, by a task of that
-- slice. In a full band the task counts the columns of the band, and in the rows that are left over
-- the columns of those rows.
pub super_m-visits :
    (rows cols super_m slice rb col : ℕ)
    → 0 < super_m
    → rb < rows
    → col < cols
    → (band_task rows cols super_m rb col < rows * cols)
      × (slice_super_m_decode
            (slice * (rows * cols) + band_task rows cols super_m rb col)
            rows
            cols
            super_m
          ≡ (slice * rows + rb, col))
unfolding Visited
super_m-visits rows cols super_m slice rb col hm hr hc =
    if_known (Visited rows cols super_m slice rb col) (ltb rb (rows / super_m * super_m))
      (λ low. low-Visited rows cols super_m slice rb col hm (ltb→lt rb _ low) hc)
      (λ high. high-Visited rows cols super_m slice rb col (ltb→le rb _ high) hr hc)
