-- ===== src/GemmAr/Visits.antt =====
-- The orders that interleave the slices.
use m_kernel.Prelude.{
  ℕ, ◌+◌, ◌-◌, ◌*◌, ◌/◌, ◌%◌, ◌<◌, ◌≡◌, high_digit, low_digit, arith, div-mul-le_self, mod-lt, suc,
  sym, ◌∙◌, ap, high_digit-lt, refl, div-add-mod', low_digit-lt, zero,
}
use native.Mathlib.Nat.{
  mul-pos, mod-eq-sub-div-mul, mod-add-mod, add-mod_right, mod-eq_of_lt, mul-le-mul_right,
}
use m_kernel.GemmAr.{slice_interleaved_devrel_decode, slice_interleaved_slices_decode}

-- `x - x / d * d`, as the decoders take a remainder.
abbrev pub rest_of : ℕ → ℕ → ℕ
rest_of x d = x - x / d * d

abbrev rotate : ℕ → ℕ → ℕ → ℕ
rotate n dev x = (x + dev) % n

abbrev unrotate : ℕ → ℕ → ℕ → ℕ
unrotate n dev y = (y + (n - dev)) % n

rotate-unrotate : (n dev y : ℕ) → dev < n → y < n → rotate n dev (unrotate n dev y) ≡ y
rotate-unrotate n dev y hd hy =
    mod-add-mod (y + (n - dev)) n dev ∙ ap (λ x. x % n) whole ∙ add-mod_right y n ∙ mod-eq_of_lt hy
  where
    whole : y + (n - dev) + dev ≡ y + n
    whole = omega arith

unrotate-rotate : (n dev x : ℕ) → dev < n → x < n → unrotate n dev (rotate n dev x) ≡ x
unrotate-rotate n dev x hd hx =
    mod-add-mod (x + dev) n (n - dev) ∙ ap (λ y. y % n) whole ∙ add-mod_right x n ∙ mod-eq_of_lt hx
  where
    whole : x + dev + (n - dev) ≡ x + n
    whole = omega arith

rest-low : (d q r : ℕ) → r < d → rest_of (q * d + r) d ≡ r
rest-low d q r h = sym (mod-eq-sub-div-mul (q * d + r) d) ∙ low_digit d q r h

pub rest-lt : (x d : ℕ) → 0 < d → rest_of x d < d
rest-lt x d h = omega (arith, mod-eq-sub-div-mul x d, mod-lt x {m = d} h)

pub rest-back : (x d : ℕ) → x / d * d + rest_of x d ≡ x
rest-back x d = omega (arith, div-mul-le_self x d)

pub two_digits-lt : (n d q r : ℕ) → q < n → r < d → q * d + r < n * d
two_digits-lt n d q r hq hr = omega (arith, mul-le-mul_right {m = suc q} {n = n} d hq)

-- The task of a tile.
abbrev pub devrel_task : (rows_per_slice cols slices dev : ℕ) → ℕ × ℕ → ℕ
devrel_task rows_per_slice cols slices dev (row, col) =
    row % rows_per_slice * (slices * cols)
    + (unrotate slices dev (row / rows_per_slice) * cols + col)

devrel-decode :
    (rows_per_slice cols slices dev round raw col : ℕ)
    → raw < slices
    → col < cols
    → slice_interleaved_devrel_decode
        (round * (slices * cols) + (raw * cols + col))
        rows_per_slice
        cols
        slices
        dev
      ≡ (rotate slices dev raw * rows_per_slice + round, col)
unfolding slice_interleaved_devrel_decode
devrel-decode rows_per_slice cols slices dev round raw col hr hc =
    rw (round_is, within_is, raw_is, col_is) refl
  where
    round_is : (round * (slices * cols) + (raw * cols + col)) / (slices * cols) ≡ round
    round_is =
        high_digit (slices * cols) round (raw * cols + col)
          (two_digits-lt slices cols raw col hr hc)

    within_is :
        round * (slices * cols) + (raw * cols + col) - round * (slices * cols) ≡ raw * cols + col
    within_is = omega arith

    raw_is : (raw * cols + col) / cols ≡ raw
    raw_is = high_digit cols raw col hc

    col_is : raw * cols + col - raw * cols ≡ col
    col_is = omega arith

-- The three digits of a task: its round, its slice in the round and its column.
record Digits (cols slices rows_per_slice task : ℕ) : Type 0 where
  round : ℕ
  raw : ℕ
  col : ℕ
  round_lt : round < rows_per_slice
  raw_lt : raw < slices
  col_lt : col < cols
  whole : task ≡ round * (slices * cols) + (raw * cols + col)

digits_of :
    (cols slices rows_per_slice task : ℕ)
    → 0 < cols
    → 0 < slices
    → task < rows_per_slice * (slices * cols)
    → Digits cols slices rows_per_slice task
digits_of cols slices rows_per_slice task hc hs ht = record {
  round = task / (slices * cols);
  raw = rest_of task (slices * cols) / cols;
  col = rest_of (rest_of task (slices * cols)) cols;
  round_lt = high_digit-lt (slices * cols) task rows_per_slice ht;
  raw_lt =
      high_digit-lt cols (rest_of task (slices * cols)) slices
        (rest-lt task (slices * cols) (mul-pos hs hc));
  col_lt = rest-lt (rest_of task (slices * cols)) cols hc;
  whole =
      omega (arith, rest-back task (slices * cols), rest-back (rest_of task (slices * cols)) cols);
}

devrel_task-at :
    (rows_per_slice cols slices dev round raw col : ℕ)
    → round < rows_per_slice
    → raw < slices
    → dev < slices
    → devrel_task rows_per_slice cols slices dev
        (rotate slices dev raw * rows_per_slice + round, col)
      ≡ round * (slices * cols) + (raw * cols + col)
devrel_task-at rows_per_slice cols slices dev round raw col hround hr hd =
    rw
      (
        low_digit rows_per_slice (rotate slices dev raw) round hround,
        high_digit rows_per_slice (rotate slices dev raw) round hround,
        unrotate-rotate slices dev raw hd hr,
      )
      refl

-- In the order that begins at the device's own slice, every tile (a row of `slices` times
-- `rows_per_slice`, and a column of `cols`) is the tile of the task `devrel_task` of it, which is
-- one of the tasks, and of no other task: the tile of every task is a tile, and has that task.
pub devrel-visits :
    (rows_per_slice cols slices dev : ℕ)
    → dev < slices
    → 0 < cols
    → ((row col : ℕ)
        → row < slices * rows_per_slice
        → col < cols
        → (slice_interleaved_devrel_decode
              (devrel_task rows_per_slice cols slices dev (row, col))
              rows_per_slice
              cols
              slices
              dev
            ≡ (row, col))
          × (devrel_task rows_per_slice cols slices dev (row, col)
              < rows_per_slice * (slices * cols)))
      × ((task : ℕ)
          → task < rows_per_slice * (slices * cols)
          → (devrel_task rows_per_slice cols slices dev
                (slice_interleaved_devrel_decode task rows_per_slice cols slices dev)
              ≡ task)
            × ((slice_interleaved_devrel_decode task rows_per_slice cols slices dev).0
                < slices * rows_per_slice)
            × ((slice_interleaved_devrel_decode task rows_per_slice cols slices dev).1 < cols))
devrel-visits rows_per_slice cols slices dev hd hc = (
  λ row col hr hcol.
      let own : unrotate slices dev (row / rows_per_slice) < slices =
        mod-lt (row / rows_per_slice + (slices - dev)) (omega arith) in
      (
        devrel-decode rows_per_slice cols slices dev (row % rows_per_slice)
              (unrotate slices dev (row / rows_per_slice)) col own hcol
            ∙ ap (λ x. (x, col))
                (ap (λ x. x * rows_per_slice + row % rows_per_slice)
                    (rotate-unrotate slices dev (row / rows_per_slice) hd
                      (high_digit-lt rows_per_slice row slices hr))
                  ∙ div-add-mod' row rows_per_slice),
        two_digits-lt rows_per_slice (slices * cols) (row % rows_per_slice) _
            (low_digit-lt rows_per_slice row slices hr)
            (two_digits-lt slices cols (unrotate slices dev (row / rows_per_slice)) col own hcol),
      ),
  λ task ht.
      let d : Digits cols slices rows_per_slice task =
        digits_of cols slices rows_per_slice task hc (omega arith) ht in
      let tile : slice_interleaved_devrel_decode task rows_per_slice cols slices dev
          ≡ (rotate slices dev d.raw * rows_per_slice + d.round, d.col) =
        ap (λ t. slice_interleaved_devrel_decode t rows_per_slice cols slices dev) d.whole
        ∙ devrel-decode rows_per_slice cols slices dev d.round d.raw d.col d.raw_lt d.col_lt in
      rw tile (
        devrel_task-at rows_per_slice cols slices dev d.round d.raw d.col d.round_lt d.raw_lt hd
            ∙ sym d.whole,
        two_digits-lt slices rows_per_slice (rotate slices dev d.raw) d.round
            (mod-lt (d.raw + dev) (omega arith)) d.round_lt,
        d.col_lt,
      ),
)

positive_factor : (a s c x : ℕ) → x < a * (s * c) → 0 < s
positive_factor a zero c x h = absurd (omega arith)
positive_factor a (suc s) c x h = omega arith

-- Beginning at slice 0 is the order that takes the slices in turn, for every task.
pub devrel-interleaved :
    (rows_per_slice cols slices task : ℕ)
    → 0 < cols
    → task < rows_per_slice * (slices * cols)
    → slice_interleaved_devrel_decode task rows_per_slice cols slices 0
      ≡ slice_interleaved_slices_decode task rows_per_slice cols slices
unfolding slice_interleaved_devrel_decode slice_interleaved_slices_decode digits_of
devrel-interleaved rows_per_slice cols slices task hc ht =
    ap
      (λ s. (
        s * rows_per_slice + task / (slices * cols),
        rest_of task (slices * cols) - rest_of task (slices * cols) / cols * cols,
      ))
      (ap (λ x. x % slices) (omega arith)
        ∙ mod-eq_of_lt (digits_of cols slices rows_per_slice task hc some_slice ht).raw_lt)
  where
    some_slice : 0 < slices
    some_slice = positive_factor rows_per_slice slices cols task ht
