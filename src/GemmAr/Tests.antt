-- ===== src/GemmAr/Tests.antt =====
-- Visits and chunks at concrete inputs.
use m_kernel.Prelude.{ℕ, ◌≡◌, refl, arith, none, ◌*◌, ◌<◌, ◌+◌, ◌≤◌, some}
use m_kernel.GemmAr.{slice_interleaved_devrel_decode, slice_super_m_decode}
use m_kernel.GemmAr.Bands.{super_m-visits, band_task}
use m_kernel.GemmAr.Visits.{devrel_task, devrel-visits}
use m_kernel.GemmAr.Chunks.{
  chunks_per_row, chunk_tiles, units_for_queue, shares, units_for_queue-shares, chunk_decode,
}
use m_kernel.GemmAr.Override.{chunk_decode-override}

-- Two devices' slices of 3 row-blocks and 5 columns, seen from device 1.
devrel-visits_example :
    ((row col : ℕ)
      → row < 2 * 3
      → col < 5
      → (slice_interleaved_devrel_decode (devrel_task 3 5 2 1 (row, col)) 3 5 2 1 ≡ (row, col))
        × (devrel_task 3 5 2 1 (row, col) < 3 * (2 * 5)))
    × ((task : ℕ)
        → task < 3 * (2 * 5)
        → (devrel_task 3 5 2 1 (slice_interleaved_devrel_decode task 3 5 2 1) ≡ task)
          × ((slice_interleaved_devrel_decode task 3 5 2 1).0 < 2 * 3)
          × ((slice_interleaved_devrel_decode task 3 5 2 1).1 < 5))
devrel-visits_example = devrel-visits 3 5 2 1 (omega arith) (omega arith)

own_slice_first : slice_interleaved_devrel_decode 0 3 5 2 1 ≡ (3, 0)
unfolding slice_interleaved_devrel_decode
own_slice_first = refl

units_for_queue-shares_example :
    (shares 10 4 4 ≡ 10)
    × ((p q : ℕ) → p < 4 → q < 4 → units_for_queue 10 p 4 ≤ units_for_queue 10 q 4 + 1)
units_for_queue-shares_example = units_for_queue-shares 10 4 (omega arith)

-- A slice of 8 rows and 5 columns in two bands of 3 rows: row 7 is left over.
super_m-visits_example :
    (band_task 8 5 3 7 4 < 8 * 5)
    × (slice_super_m_decode (1 * (8 * 5) + band_task 8 5 3 7 4) 8 5 3 ≡ (1 * 8 + 7, 4))
super_m-visits_example = super_m-visits 8 5 3 1 7 4 (omega arith) (omega arith) (omega arith)

chunk_decode-override_example :
    (chunks_per_row (some 32) 8 ≡ 1)
    × ((chunk_decode none 1 2 8 (chunk_tiles (some 32) 8) 0).rb_in_slice ≡ 0)
    × ((chunk_decode none 1 2 8 (chunk_tiles (some 32) 8) 0).tiles_this_chunk ≡ 0)
chunk_decode-override_example =
    chunk_decode-override 32 2 8 0 (omega arith) (omega arith) (omega arith)
