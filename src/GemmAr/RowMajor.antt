-- ===== src/GemmAr/RowMajor.antt =====
-- The order that takes slice after slice and row after row, `slice_row_major_decode`.
use m_kernel.Prelude.{◌/◌, ◌%◌, ℕ, ◌<◌, ◌*◌, ◌+◌, ◌≡◌, arith, sym, high_digit, ◌∙◌, ap, low_digit}
use m_kernel.GemmAr.{slice_row_major_decode}
use m_kernel.GemmAr.Visits.{rest-back, rest_of, rest-lt}

row_major-task :
    (rows_per_slice cols task : ℕ)
    → 0 < cols
    → ((slice_row_major_decode task rows_per_slice cols).0 * cols
          + (slice_row_major_decode task rows_per_slice cols).1
        ≡ task)
      × ((slice_row_major_decode task rows_per_slice cols).1 < cols)
unfolding slice_row_major_decode
row_major-task rows_per_slice cols task hc = (
  omega (
    arith,
    rest-back task (rows_per_slice * cols),
    rest-back (rest_of task (rows_per_slice * cols)) cols,
  ),
  rest-lt (rest_of task (rows_per_slice * cols)) cols hc,
)

-- In the row-major order a task is the row times the number of columns plus the column of its tile,
-- and the tile of that number is the one that it is made of.
pub row_major-visits :
    (rows_per_slice cols : ℕ)
    → 0 < cols
    → ((task : ℕ)
        → ((slice_row_major_decode task rows_per_slice cols).0 * cols
              + (slice_row_major_decode task rows_per_slice cols).1
            ≡ task)
          × ((slice_row_major_decode task rows_per_slice cols).1 < cols))
      × ((row col : ℕ)
          → col < cols
          → slice_row_major_decode (row * cols + col) rows_per_slice cols ≡ (row, col))
row_major-visits rows_per_slice cols hc =
    (λ task. row_major-task rows_per_slice cols task hc, row_major-tile)
  where
    row_major-tile :
        (row col : ℕ)
        → col < cols
        → slice_row_major_decode (row * cols + col) rows_per_slice cols ≡ (row, col)
    row_major-tile row col h =
        let (whole, lt) = row_major-task rows_per_slice cols (row * cols + col) hc in
        let tile : ℕ × ℕ = slice_row_major_decode (row * cols + col) rows_per_slice cols in
        let same_row : tile.0 ≡ row =
          sym (high_digit cols tile.0 tile.1 lt)
          ∙ ap (λ t. t / cols) whole
          ∙ high_digit cols row col h in
        let same_col : tile.1 ≡ col =
          sym (low_digit cols tile.0 tile.1 lt)
          ∙ ap (λ t. t % cols) whole
          ∙ low_digit cols row col h in
        ap (λ r. (r, tile.1)) same_row ∙ ap (λ c. (row, c)) same_col
