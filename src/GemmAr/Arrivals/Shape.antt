-- ===== src/GemmAr/Arrivals/Shape.antt =====
-- What the constants of the kernels have to be, and what chunks and arrival words are then decoded to.
use m_kernel.GemmAr.Chunks.{chunk_tiles, chunks_per_row, chunk_tiles-pos, chunk_decode}
use native.Mathlib.Nat.{mul-le-mul_right, mul-le-mul_left}
use m_kernel.Prelude.{
  ℕ, ◌<◌, arith, ◌*◌, ◌≡◌, min, sym, ◌+◌, high_digit, none, ◌-◌, ap, ◌^◌, ◌≤◌, ◌/◌, refl, suc, ◌∙◌,
  zero, div-mul-le_self,
}
use m_kernel.GemmAr.Arrivals.Sends.{device_decode, group_tiles, pack_first_tile}
use m_kernel.GemmAr.Arrivals.{FusedGlobals, Arrived, take_arrival, mark_tiles, int_or_zero}
use m_kernel.Types.{unpack_arrival_first_tile, unpack_arrival_num_tiles}
use m_kernel.GemmAr.Arrivals.Marks.{chunk_at, tiles_of}
use mathlib.Core.Path.{subst}

-- The constants of `fused_globals` as the host computes them, with no override of the chunk size,
-- and small enough for the fields of the arrival word.
pub record IsShape (g : FusedGlobals) : Type 0 where
  pub some_col : 0 < g.col_blocks
  pub tiles : g.chunk_tiles ≡ chunk_tiles none g.col_blocks
  pub per_row : g.chunks_per_row ≡ chunks_per_row none g.col_blocks
  pub total : g.total_tiles_per_device ≡ g.row_blocks_per_slice * g.col_blocks
  pub nodes : g.num_nodes ≤ 32
  pub fits : (g.num_nodes - 1) * g.total_tiles_per_device < 2 ^ 24

-- An arrival word that is read as `n` tiles from a tile of a row on.
pub take-eq :
    (g : FusedGlobals) (w peer rb col n : ℕ) (s : Arrived)
    → unpack_arrival_first_tile w ≡ peer * g.total_tiles_per_device + (rb * g.col_blocks + col)
    → unpack_arrival_num_tiles w ≡ n
    → peer * g.total_tiles_per_device + (rb * g.col_blocks + col) < 2 ^ 31
    → rb * g.col_blocks + col < g.total_tiles_per_device
    → col < g.col_blocks
    → n ≤ g.col_blocks - col
    → take_arrival g w s ≡ mark_tiles n g peer rb col n s
unfolding take_arrival
take-eq g w peer rb col n s first num word low_tile low_col short =
    rw (first_is, peer_is, local_is, rb_is, col_is, work_is) refl
  where
    first_is :
        int_or_zero (unpack_arrival_first_tile w)
        ≡ peer * g.total_tiles_per_device + (rb * g.col_blocks + col)
    first_is = ground (arith, first)

    peer_is :
        (peer * g.total_tiles_per_device + (rb * g.col_blocks + col)) / g.total_tiles_per_device
        ≡ peer
    peer_is = high_digit g.total_tiles_per_device peer (rb * g.col_blocks + col) low_tile

    local_is :
        peer * g.total_tiles_per_device
          + (rb * g.col_blocks + col)
          - peer * g.total_tiles_per_device
        ≡ rb * g.col_blocks + col
    local_is = omega arith

    rb_is : (rb * g.col_blocks + col) / g.col_blocks ≡ rb
    rb_is = high_digit g.col_blocks rb col low_col

    col_is : rb * g.col_blocks + col - rb * g.col_blocks ≡ col
    col_is = omega arith

    work_is : min (unpack_arrival_num_tiles w) (g.col_blocks - col) ≡ n
    work_is = omega (arith, num, short)

module _ (g : FusedGlobals) (shape : IsShape g) where
  pub tiles-pos : 0 < g.chunk_tiles
  tiles-pos = omega (arith, shape.tiles, chunk_tiles-pos none g.col_blocks shape.some_col)

  -- A chunk of a row begins in the row.
  pub chunk-room : (c : ℕ) → c < g.chunks_per_row → c * g.chunk_tiles < g.col_blocks
  unfolding chunks_per_row
  chunk-room c low = omega (arith, chunks-room, mul-le-mul_right g.chunk_tiles low, tiles-pos)
    where
      per_row_is : g.chunks_per_row ≡ (g.col_blocks + g.chunk_tiles - 1) / g.chunk_tiles
      per_row_is = shape.per_row ∙ ap (λ t. (g.col_blocks + t - 1) / t) (sym shape.tiles)

      chunks-room : g.chunks_per_row * g.chunk_tiles ≤ g.col_blocks + g.chunk_tiles - 1
      chunks-room =
          subst (λ x. x * g.chunk_tiles ≤ g.col_blocks + g.chunk_tiles - 1) (sym per_row_is)
            (div-mul-le_self (g.col_blocks + g.chunk_tiles - 1) g.chunk_tiles)

  module _ (rb c : ℕ) (low : c < g.chunks_per_row) where
    pub decode-rb : (device_decode g (chunk_at g rb c)).rb_in_slice ≡ rb
    unfolding chunk_decode
    decode-rb = rw (sym shape.per_row) (high_digit g.chunks_per_row rb c low)

    pub decode-col : (device_decode g (chunk_at g rb c)).col_start ≡ c * g.chunk_tiles
    unfolding chunk_decode
    decode-col =
        rw (sym shape.per_row, high_digit g.chunks_per_row rb c low)
          (ap (λ x. x * g.chunk_tiles) (omega arith))

    pub decode-tiles :
        (device_decode g (chunk_at g rb c)).tiles_this_chunk
        ≡ min g.chunk_tiles (g.col_blocks - c * g.chunk_tiles)
    unfolding chunk_decode
    decode-tiles = ap (λ col. min g.chunk_tiles (g.col_blocks - col)) decode-col

    pub decode-first : pack_first_tile g (chunk_at g rb c) ≡ rb * g.col_blocks + c * g.chunk_tiles
    decode-first = omega (arith, ap (λ x. x * g.col_blocks) decode-rb, decode-col)

  module _ (rb c k : ℕ) (some : 0 < k) (room : c + k ≤ g.chunks_per_row) where
    last_chunk : chunk_at g rb c + k - 1 ≡ chunk_at g rb (c + k - 1)
    last_chunk = omega arith

    -- The tiles of the chunks before the last one and those of the last one.
    pub group-tiles : group_tiles g (chunk_at g rb c) k ≡ tiles_of g c k
    group-tiles =
        ap (λ x. (k - 1) * g.chunk_tiles + (device_decode g x).tiles_this_chunk) last_chunk
        ∙ ap (λ x. (k - 1) * g.chunk_tiles + x) (decode-tiles rb (c + k - 1) (omega arith))
        ∙ sum k some (chunk-room (c + k - 1) (omega arith))
      where
        before : (k : ℕ) → c + suc k - 1 ≡ c + k
        before k = omega arith

        sum :
            (k : ℕ)
            → 0 < k
            → (c + k - 1) * g.chunk_tiles < g.col_blocks
            → (k - 1) * g.chunk_tiles
                + min g.chunk_tiles (g.col_blocks - (c + k - 1) * g.chunk_tiles)
              ≡ tiles_of g c k
        sum zero h lt = absurd (omega arith)
        sum (suc k) h lt = ground (arith, ap (λ x. x * g.chunk_tiles) (before k), lt)

    pub enough : k ≤ tiles_of g c k
    enough = omega (
      arith,
      mul-le-mul_left k tiles-pos,
      mul-le-mul_left (k - 1) tiles-pos,
      split (c + k - 1) c (k - 1) (omega arith),
      chunk-room (c + k - 1) (omega arith),
    )
      where
        split : (a b d : ℕ) → a ≡ b + d → a * g.chunk_tiles ≡ b * g.chunk_tiles + d * g.chunk_tiles
        split a b d e = rw e (omega arith)
