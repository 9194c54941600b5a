-- ===== src/GemmAr/Chunks.antt =====
-- Chunks of a row of tiles, and the shares of the queues.
use m_kernel.Prelude.{
  ℕ, zero, suc, ◌+◌, ◌-◌, ◌*◌, ◌/◌, ◌%◌, ◌<◌, ◌≤◌, min, ltb, leb, ◌==◌, if◌then◌else◌, Option, none,
  some, ◌||◌, ◌≡◌, high_digit, arith, lt-div-mul-add, dec_lt, high_digit-lt, mod-lt, ap,
  div-add-mod', div-mul-le_self, refl,
}
use mathlib.Core.Path.{subst}

-- `gemm_ar_chunk_tiles`: four tiles, or the number in the environment on the host, cut to the row.
unfoldable pub chunk_tiles : (env : Option ℕ) → ℕ → ℕ
chunk_tiles env col_blocks =
    let tiles : ℕ = elim env [ none ↦ 4 | some n ↦ if ltb 0 n then n else 4 ] in
    if ltb tiles col_blocks then tiles else col_blocks

unfoldable pub chunks_per_row : (env : Option ℕ) → ℕ → ℕ
chunks_per_row env col_blocks =
    (col_blocks + chunk_tiles env col_blocks - 1) / chunk_tiles env col_blocks

unfoldable pub units_for_queue : (total_units queue_id num_queues : ℕ) → ℕ
units_for_queue total_units queue_id num_queues =
    if num_queues == 0 || leb num_queues queue_id || leb total_units queue_id
    then 0
    else 1 + (total_units - 1 - queue_id) / num_queues

-- What `gemm_ar_chunk_decode` says of a chunk.
pub record Chunk : Type 0 where
  pub rb_in_slice : ℕ
  pub row_idx : ℕ
  pub col_start : ℕ
  pub tiles_this_chunk : ℕ

unfoldable pub chunk_decode :
    (env : Option ℕ) → (chunk_id row_blocks_per_slice col_blocks tiles dev_idx : ℕ) → Chunk
chunk_decode env chunk_id row_blocks_per_slice col_blocks tiles dev_idx =
    let per_row : ℕ = chunks_per_row env col_blocks in
    let rb : ℕ = chunk_id / per_row in
    let chunk_col : ℕ = chunk_id - rb * per_row in
    record {
      rb_in_slice = rb;
      row_idx = dev_idx * row_blocks_per_slice + rb;
      col_start = chunk_col * tiles;
      tiles_this_chunk = min tiles (col_blocks - chunk_col * tiles);
    }

unfoldable pub chunk_first_tile :
    (env : Option ℕ) → (chunk_id row_blocks_per_slice col_blocks tiles : ℕ) → ℕ
chunk_first_tile env chunk_id row_blocks_per_slice col_blocks tiles =
    let c : Chunk = chunk_decode env chunk_id row_blocks_per_slice col_blocks tiles 0 in
    c.rb_in_slice * col_blocks + c.col_start

pub chunk_tiles-pos : (env : Option ℕ) (cols : ℕ) → 0 < cols → 0 < chunk_tiles env cols
unfolding chunk_tiles
chunk_tiles-pos env cols h = ground arith

-- The chunks of a row reach its end, and the last one begins before it.
chunks-cover :
    (env : Option ℕ) (cols : ℕ) → 0 < cols → cols ≤ chunks_per_row env cols * chunk_tiles env cols
unfolding chunks_per_row
chunks-cover env cols h = omega (
  arith,
  lt-div-mul-add {a = cols + chunk_tiles env cols - 1} (chunk_tiles-pos env cols h),
  chunk_tiles-pos env cols h,
)

-- The number of the chunk that holds a tile of a row-block.
abbrev pub chunk_of : (env : Option ℕ) → ℕ → ℕ → ℕ → ℕ
chunk_of env cols rb col = rb * chunks_per_row env cols + col / chunk_tiles env cols

-- What that chunk is decoded to.
abbrev pub chunk_holding : (env : Option ℕ) → (rb col rows_per_slice cols dev : ℕ) → Chunk
chunk_holding env rb col rows_per_slice cols dev =
    chunk_decode env (chunk_of env cols rb col) rows_per_slice cols (chunk_tiles env cols) dev

-- For every tile of a slice, a row-block and a column, the chunk `chunk_of` it is decoded to that
-- row-block, to the row of the device's slice, and to a range of columns within the row that holds
-- the column; and the chunk's first tile is the first one of that range.
pub chunk_decode-chunk_of :
    (env : Option ℕ) (rb col rows_per_slice cols dev : ℕ)
    → col < cols
    → ((chunk_holding env rb col rows_per_slice cols dev).rb_in_slice ≡ rb)
      × ((chunk_holding env rb col rows_per_slice cols dev).row_idx ≡ dev * rows_per_slice + rb)
      × ((chunk_holding env rb col rows_per_slice cols dev).col_start ≤ col)
      × (col
          < (chunk_holding env rb col rows_per_slice cols dev).col_start
            + (chunk_holding env rb col rows_per_slice cols dev).tiles_this_chunk)
      × ((chunk_holding env rb col rows_per_slice cols dev).col_start
            + (chunk_holding env rb col rows_per_slice cols dev).tiles_this_chunk
          ≤ cols)
      × (chunk_first_tile env (chunk_of env cols rb col) rows_per_slice cols (chunk_tiles env cols)
          ≡ rb * cols + (chunk_holding env rb col rows_per_slice cols dev).col_start)
unfolding chunk_decode chunk_first_tile
chunk_decode-chunk_of env rb col rows_per_slice cols dev h =
    rw (rb_is, k_is)
      (
        refl,
        refl,
        div-mul-le_self col (chunk_tiles env cols),
        omega (arith, ends_after),
        omega (arith, div-mul-le_self col (chunk_tiles env cols)),
        refl,
      )
  where
    some_tile : 0 < chunk_tiles env cols
    some_tile = chunk_tiles-pos env cols (omega arith)

    ends_after : col < col / chunk_tiles env cols * chunk_tiles env cols + chunk_tiles env cols
    ends_after = lt-div-mul-add {a = col} some_tile

    k_lt : col / chunk_tiles env cols < chunks_per_row env cols
    k_lt =
        high_digit-lt (chunk_tiles env cols) col (chunks_per_row env cols)
          (omega (arith, chunks-cover env cols (omega arith)))

    rb_is : chunk_of env cols rb col / chunks_per_row env cols ≡ rb
    rb_is = high_digit (chunks_per_row env cols) rb (col / chunk_tiles env cols) k_lt

    k_is : chunk_of env cols rb col - rb * chunks_per_row env cols ≡ col / chunk_tiles env cols
    k_is = omega arith

-- The sum of the shares of the first `k` queues.
unfoldable pub shares : (total num_queues : ℕ) → ℕ → ℕ
shares total num_queues zero = 0
shares total num_queues (suc k) = shares total num_queues k + units_for_queue total k num_queues

units_for_queue-digits :
    (a r q n : ℕ) → r < n → q < n → units_for_queue (a * n + r) q n ≡ a + (if ltb q r then 1 else 0)
unfolding units_for_queue
units_for_queue-digits zero r q n hr hq = elim (dec_lt q r) [
  | yes lt ↦ ground (arith, high_digit n 0 (r - 1 - q) (omega arith))
  | no ge ↦ ground arith
]
units_for_queue-digits (suc a) r q n hr hq = elim (dec_lt q r) [
  | yes lt ↦
      ground (arith, ap (λ x. x / n) (after_lt lt), high_digit n (suc a) (r - 1 - q) (omega arith))
  | no ge ↦
      ground (arith, ap (λ x. x / n) (after_ge ge), high_digit n a (n + r - 1 - q) (omega arith))
]
  where
    after_lt : q < r → suc a * n + r - 1 - q ≡ suc a * n + (r - 1 - q)
    after_lt lt = omega arith

    after_ge : ¬ (q < r) → suc a * n + r - 1 - q ≡ a * n + (n + r - 1 - q)
    after_ge ge = omega arith

shares-digits : (a r n k : ℕ) → r < n → k ≤ n → shares (a * n + r) n k ≡ k * a + min k r
unfolding shares
shares-digits a r n zero hr hk = omega arith
shares-digits a r n (suc k) hr hk =
    ground (
      arith,
      shares-digits a r n k hr (omega arith),
      units_for_queue-digits a r k n hr (omega arith),
    )

-- The shares of all queues, at least one, add up to the number of units, and no queue has two units
-- more than another.
pub units_for_queue-shares :
    (total num_queues : ℕ)
    → 0 < num_queues
    → (shares total num_queues num_queues ≡ total)
      × ((p q : ℕ)
          → p < num_queues
          → q < num_queues
          → units_for_queue total p num_queues ≤ units_for_queue total q num_queues + 1)
units_for_queue-shares total n h =
    subst
      (λ t.
        (shares t n n ≡ t)
        × ((p q : ℕ) → p < n → q < n → units_for_queue t p n ≤ units_for_queue t q n + 1))
      (div-add-mod' total n)
      (
        omega (arith, shares-digits (total / n) (total % n) n n small (omega arith)),
        λ p q hp hq. ground (
          arith,
          units_for_queue-digits (total / n) (total % n) p n small hp,
          units_for_queue-digits (total / n) (total % n) q n small hq,
        ),
      )
  where
    small : total % n < n
    small = mod-lt total h
