-- ===== src/GemmAr.antt =====
-- include/operators/gemm_ar/gemm_ar.cuh: the order in which thread blocks visit the tiles of the
-- output, and the chunks that transfers are made of. All `int`s here are at least 0.
pub mod Visits
pub mod RowMajor
pub mod Bands
pub mod Chunks
pub mod Override
pub mod Scratch
pub mod Arrivals
mod Tests
use m_kernel.Prelude.{ℕ, ◌+◌, ◌-◌, ◌*◌, ◌/◌, ◌%◌, ltb, if◌then◌else◌}

-- The row and the column of a task, slice by slice and row by row.
unfoldable pub slice_row_major_decode : (task_id row_blocks_per_slice col_blocks : ℕ) → ℕ × ℕ
slice_row_major_decode task_id row_blocks_per_slice col_blocks =
    let tiles_per_slice : ℕ = row_blocks_per_slice * col_blocks in
    let slice_idx : ℕ = task_id / tiles_per_slice in
    let local_idx : ℕ = task_id - slice_idx * tiles_per_slice in
    let rb_in_slice : ℕ = local_idx / col_blocks in
    (slice_idx * row_blocks_per_slice + rb_in_slice, local_idx - rb_in_slice * col_blocks)

-- Round-robin over the slices.
unfoldable pub slice_interleaved_slices_decode :
    (task_id row_blocks_per_slice col_blocks num_slices : ℕ) → ℕ × ℕ
slice_interleaved_slices_decode task_id row_blocks_per_slice col_blocks num_slices =
    let tiles_per_round : ℕ = num_slices * col_blocks in
    let round_idx : ℕ = task_id / tiles_per_round in
    let within_round : ℕ = task_id - round_idx * tiles_per_round in
    let slice_idx : ℕ = within_round / col_blocks in
    (slice_idx * row_blocks_per_slice + round_idx, within_round - slice_idx * col_blocks)

-- The same, with each device beginning at its own slice.
unfoldable pub slice_interleaved_devrel_decode :
    (task_id row_blocks_per_slice col_blocks num_slices dev_idx : ℕ) → ℕ × ℕ
slice_interleaved_devrel_decode task_id row_blocks_per_slice col_blocks num_slices dev_idx =
    let tiles_per_round : ℕ = num_slices * col_blocks in
    let round_idx : ℕ = task_id / tiles_per_round in
    let within_round : ℕ = task_id - round_idx * tiles_per_round in
    let raw_slice : ℕ = within_round / col_blocks in
    let slice_idx : ℕ = (raw_slice + dev_idx) % num_slices in
    (slice_idx * row_blocks_per_slice + round_idx, within_round - raw_slice * col_blocks)

-- A task of the full bands of `super_m` rows, which are walked column by column.
unfoldable pub in_bands : (slice_idx local_idx row_blocks_per_slice col_blocks super_m : ℕ) → ℕ × ℕ
in_bands slice_idx local_idx row_blocks_per_slice col_blocks super_m =
    let super_blocks : ℕ = super_m * col_blocks in
    let band : ℕ = local_idx / super_blocks in
    let in_band : ℕ = local_idx - band * super_blocks in
    (slice_idx * row_blocks_per_slice + band * super_m + in_band % super_m, in_band / super_m)

-- A task of the rows that are left over.
unfoldable pub in_tail : (slice_idx tail_idx row_blocks_per_slice super_rows : ℕ) → ℕ × ℕ
in_tail slice_idx tail_idx row_blocks_per_slice super_rows =
    let tail_rows : ℕ = row_blocks_per_slice - super_rows in
    (slice_idx * row_blocks_per_slice + super_rows + tail_idx % tail_rows, tail_idx / tail_rows)

unfoldable pub slice_super_m_decode : (task_id row_blocks_per_slice col_blocks super_m : ℕ) → ℕ × ℕ
slice_super_m_decode task_id row_blocks_per_slice col_blocks super_m =
    let tiles_per_slice : ℕ = row_blocks_per_slice * col_blocks in
    let slice_idx : ℕ = task_id / tiles_per_slice in
    let local_idx : ℕ = task_id - slice_idx * tiles_per_slice in
    let super_rows : ℕ = row_blocks_per_slice / super_m * super_m in
    if ltb local_idx (super_rows * col_blocks)
    then in_bands slice_idx local_idx row_blocks_per_slice col_blocks super_m
    else in_tail slice_idx (local_idx - super_rows * col_blocks) row_blocks_per_slice super_rows
