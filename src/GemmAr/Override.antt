-- ===== src/GemmAr/Override.antt =====
-- The environment that sets the chunk size on the host only.
use m_kernel.GemmAr.Chunks.{chunk_tiles, chunks_per_row, chunk_decode}
use m_kernel.Prelude.{
  ℕ, ◌<◌, none, ◌≤◌, some, ◌≡◌, arith, ◌+◌, ◌-◌, ◌/◌, high_digit, ◌*◌, min, ap, ◌∙◌,
}

override_whole : (n cols : ℕ) → 0 < n → cols ≤ n → chunk_tiles (some n) cols ≡ cols
unfolding chunk_tiles
override_whole n cols h le = ground arith

usual_four : (cols : ℕ) → 4 < cols → chunk_tiles none cols ≡ 4
unfolding chunk_tiles
usual_four cols h = ground arith

-- On the host `gemm_ar_chunks_per_row` reads an override of the chunk size from the environment; in
-- device code it does not. With an override of at least the row's length and rows of more than four
-- tiles, the host counts one chunk a row, so that the second chunk is the second row; the device,
-- which is handed the host's chunk size, decodes it to an empty chunk of the first row.
pub chunk_decode-override :
    (n rows_per_slice cols dev : ℕ)
    → 4 < cols
    → cols ≤ n
    → 1 < rows_per_slice
    → (chunks_per_row (some n) cols ≡ 1)
      × ((chunk_decode none 1 rows_per_slice cols (chunk_tiles (some n) cols) dev).rb_in_slice ≡ 0)
      × ((chunk_decode none 1 rows_per_slice cols (chunk_tiles (some n) cols) dev).tiles_this_chunk
          ≡ 0)
unfolding chunks_per_row chunk_decode
chunk_decode-override n rows cols dev long all more = (
  rw (whole) one_chunk,
  first_row,
  rw (whole, first_row) (nothing_left (chunks_per_row none cols)),
)
  where
    whole : chunk_tiles (some n) cols ≡ cols
    whole = override_whole n cols (omega arith) all

    one_chunk : (cols + cols - 1) / cols ≡ 1
    one_chunk = ground (arith, high_digit cols 1 (cols - 1) (omega arith))

    two : 2 ≤ (cols + chunk_tiles none cols - 1) / chunk_tiles none cols
    two = rw (usual_four cols long) (omega arith)

    first_row : 1 / ((cols + chunk_tiles none cols - 1) / chunk_tiles none cols) ≡ 0
    first_row = ground (arith, two)

    no_row : (k : ℕ) → 1 - 0 * k ≡ 1
    no_row k = omega arith

    nothing_left : (k : ℕ) → min cols (cols - (1 - 0 * k) * cols) ≡ 0
    nothing_left k = ap (λ x. min cols (cols - x * cols)) (no_row k) ∙ omega arith
