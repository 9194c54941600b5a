-- ===== src/AgGemm/Cover.antt =====
-- The two commands of a row cover its bytes.
use m_kernel.Prelude.{
  ℕ, ◌≡◌, refl, arith, if_both, min, ◌*◌, ◌∷◌, [], ltb, ◌+◌, ◌≤◌, ◌<◌, ◌||◌, not, ◌^◌, ◌%◌, ◌==◌,
  u64, u32, ◌-◌,
}
use m_kernel.AgGemm.{
  Globals, compute_wr_split, row_block, RowBlock, chunk_bytes, Push, merge_wrs, merge_row_block,
  ring_cmd, next_rank, push_on_lane, forward_row_block, sub_end, split_cmds, forward_wrs,
}
use m_kernel.Types.{slot_at_peer}
use m_kernel.Prelude.Int.{ℤ, int_of}
use m_kernel.Proxy.{plus}
use m_kernel.Fifo.Bundle.{FifoBundle}

compute_wr_split-one : (bytes : ℤ) → compute_wr_split bytes 1 ≡ 1
unfolding compute_wr_split
compute_wr_split-one bytes = ground arith

row_block-whole : (g : Globals) (rb cpr : ℕ) → (row_block g rb cpr).split ≡ 1
unfolding row_block
row_block-whole g rb cpr =
    let b : RowBlock = row_block g rb cpr in
    if_both (λ s. s ≡ 1)
      (ltb cpr (compute_wr_split (int_of b.rb_bytes) 1)
        || not (cpr % compute_wr_split (int_of b.rb_bytes) 1 == 0))
      refl (compute_wr_split-one (int_of b.rb_bytes))

row_block-base :
    (g : Globals) (rb cpr : ℕ) → (row_block g rb cpr).base_offset ≡ rb * cpr * chunk_bytes
unfolding row_block
row_block-base g rb cpr = refl

-- Where a row-block's bytes stop: at the end of its chunks, of all chunks or of the matrix.
abbrev pub stop_of : Globals → ℕ → ℕ → ℕ
stop_of g rb cpr = min g.a_half_bytes (min (rb * cpr + cpr) g.total_chunks * chunk_bytes)

row_block-end : (g : Globals) (rb cpr : ℕ) → (row_block g rb cpr).end_offset ≡ stop_of g rb cpr
unfolding row_block
row_block-end g rb cpr = ground arith

row_block-bytes :
    (g : Globals) (rb cpr : ℕ)
    → rb * cpr * chunk_bytes ≤ stop_of g rb cpr
    → cpr * chunk_bytes < 2 ^ 32
    → (row_block g rb cpr).base_offset + (row_block g rb cpr).rb_bytes ≡ stop_of g rb cpr
unfolding row_block
row_block-bytes g rb cpr h small = omega (arith, row_block-end g rb cpr)

merge_row_block-one :
    (g : Globals) (rb cpr : ℕ)
    → (p : Push) × (merge_row_block g rb cpr ≡ p ∷ [])
      × (p.1.local_offset ≡ rb * cpr * chunk_bytes)
      × (p.1.bytes ≡ (row_block g rb cpr).rb_bytes)
unfolding merge_row_block ring_cmd
merge_row_block-one g rb cpr = (
  push_on_lane g (
      ring_cmd g (slot_at_peer g.node_idx (next_rank g) g.num_nodes)
        (row_block g rb cpr).first_chunk (row_block g rb cpr).base_offset
        (row_block g rb cpr).base_offset (row_block g rb cpr).rb_bytes 1 rb),
  rw (row_block-whole g rb cpr) refl,
  base_is,
  refl,
)
  where
    base_is : (row_block g rb cpr).base_offset ≡ rb * cpr * chunk_bytes
    base_is = row_block-base g rb cpr

distribute : (row cpr : ℕ) → (2 * row + 1) * cpr ≡ 2 * row * cpr + cpr
distribute row cpr = omega arith

-- For a row whose second row-block begins within the chunks and within the matrix, with row-blocks
-- of less than 4 GiB: the row is sent by two commands, one for each row-block, whose byte ranges
-- begin where the row begins, follow one another without a gap or an overlap, and stop where the
-- row, the chunks or the matrix stops first.
pub merge_wrs-cover :
    (g : Globals) (row cpr : ℕ)
    → (2 * row + 1) * cpr ≤ g.total_chunks
    → (2 * row + 1) * cpr * chunk_bytes ≤ g.a_half_bytes
    → cpr * chunk_bytes < 2 ^ 32
    → (p q : Push) × (merge_wrs g row cpr ≡ p ∷ q ∷ [])
      × (p.1.local_offset ≡ 2 * row * cpr * chunk_bytes)
      × (p.1.local_offset + p.1.bytes ≡ q.1.local_offset)
      × (q.1.local_offset + q.1.bytes
          ≡ min g.a_half_bytes (min ((2 * row + 2) * cpr) g.total_chunks * chunk_bytes))
unfolding merge_wrs
merge_wrs-cover g row cpr in_chunks in_matrix small =
    let (p, one_p, base_p, bytes_p) = merge_row_block-one g (2 * row) cpr in
    let (q, one_q, base_q, bytes_q) = merge_row_block-one g (2 * row + 1) cpr in
    (
      p,
      q,
      rw (one_p, one_q) refl,
      base_p,
      omega (
        arith,
        base_p,
        base_q,
        bytes_p,
        row_block-base g (2 * row) cpr,
        row_block-bytes g (2 * row) cpr (omega (arith, distribute row cpr)) small,
      ),
      omega (
        arith,
        base_q,
        bytes_q,
        row_block-base g (2 * row + 1) cpr,
        row_block-bytes g (2 * row + 1) cpr (omega arith) small,
      ),
    )

row_block-sub_bytes :
    (g : Globals) (rb cpr : ℕ)
    → cpr * chunk_bytes < 2 ^ 32
    → (row_block g rb cpr).bytes_per_sub ≡ cpr * chunk_bytes
unfolding row_block
row_block-sub_bytes g rb cpr small = rw (row_block-whole g rb cpr) (omega arith)

sub_end-whole :
    (g : Globals) (b : RowBlock) (base cpr : ℕ)
    → b.split ≡ 1
    → b.bytes_per_sub ≡ cpr
    → b.end_offset ≤ base + cpr
    → sub_end b 0 base ≡ b.end_offset
unfolding sub_end
sub_end-whole g b base cpr whole bytes stops = rw (whole, bytes) (ground arith)

-- The command of a row-block that is forwarded whole.
abbrev forward_push : Globals → ℤ → (source rb : ℕ) → RowBlock → Push
forward_push g virtual source rb b =
    let sub_first_chunk : ℕ = b.first_chunk + 0 * b.chunks_per_sub in
    let sub_base : ℕ = sub_first_chunk * chunk_bytes in
    push_on_lane g (
      ring_cmd g virtual sub_first_chunk (u64 (source + sub_base)) sub_base
        (u32 (sub_end b 0 sub_base + 2 ^ 64 - sub_base)) 0 (rb * b.split + 0))

split_cmds-one :
    (g : Globals) (virtual : ℤ) (source rb : ℕ) (b : RowBlock) (n : ℕ)
    → n ≡ 1
    → split_cmds g virtual source 0 rb b n 0 ≡ forward_push g virtual source rb b ∷ []
unfolding split_cmds
split_cmds-one g virtual source rb b n one = rw one refl

row_block-first : (g : Globals) (rb cpr : ℕ) → (row_block g rb cpr).first_chunk ≡ rb * cpr
unfolding row_block
row_block-first g rb cpr = refl

row_block-stops :
    (g : Globals) (rb cpr : ℕ)
    → (row_block g rb cpr).end_offset ≤ rb * cpr * chunk_bytes + cpr * chunk_bytes
unfolding row_block
row_block-stops g rb cpr = ground arith

row_block-taken :
    (g : Globals) (rb cpr : ℕ)
    → (row_block g rb cpr).rb_bytes
      ≡ u32 ((row_block g rb cpr).end_offset + 2 ^ 64 - rb * cpr * chunk_bytes)
unfolding row_block
row_block-taken g rb cpr = refl

forward_row_block-one :
    (g : Globals) (virtual : ℤ) (source rb cpr : ℕ)
    → cpr * chunk_bytes < 2 ^ 32
    → (p : Push) × (forward_row_block g virtual source rb cpr ≡ p ∷ [])
      × (p.1.local_offset ≡ u64 (source + rb * cpr * chunk_bytes))
      × (p.1.bytes ≡ (row_block g rb cpr).rb_bytes)
unfolding forward_row_block ring_cmd
forward_row_block-one g virtual source rb cpr small = (
  forward_push g virtual source rb (row_block g rb cpr),
  split_cmds-one g virtual source rb (row_block g rb cpr) (row_block g rb cpr).split
      (row_block-whole g rb cpr),
  omega (arith, row_block-first g rb cpr),
  rw
      (
        base_is,
        sub_end-whole g b (rb * cpr * chunk_bytes) (cpr * chunk_bytes) (row_block-whole g rb cpr)
            (row_block-sub_bytes g rb cpr small) (row_block-stops g rb cpr),
        row_block-taken g rb cpr,
      )
      refl,
)
  where
    b : RowBlock
    b = row_block g rb cpr

    base_is : (b.first_chunk + 0 * b.chunks_per_sub) * chunk_bytes ≡ rb * cpr * chunk_bytes
    base_is = omega (arith, row_block-first g rb cpr)

-- Another node with a matrix of the same size.
abbrev pub other_node : Globals → (node dev : ℕ) → FifoBundle → Globals
other_node g node dev rings = record g { node_idx = node; dev_idx = dev; d2h_fifos = rings }

-- With row-blocks of less than 4 GiB, and two nodes whose matrices have the same number of chunks and
-- bytes, while their ranks, devices and rings may differ: the second node forwards a row by two
-- commands, like the first node that sends it, and each carries as many bytes as the first node's
-- command and reads them from the same place of the row, counted from the slot that the row has
-- arrived in.
pub forward_wrs-merge_wrs :
    (g : Globals) (node dev : ℕ) (rings : FifoBundle) (slot origin row cpr bank : ℕ)
    → cpr * chunk_bytes < 2 ^ 32
    → (p q p2 q2 : Push) × (merge_wrs g row cpr ≡ p ∷ q ∷ [])
      × (forward_wrs (other_node g node dev rings) slot origin row cpr bank ≡ p2 ∷ q2 ∷ [])
      × (p2.1.bytes ≡ p.1.bytes)
      × (q2.1.bytes ≡ q.1.bytes)
      × (p2.1.local_offset ≡ u64 (slot * g.a_half_bytes + p.1.local_offset))
      × (q2.1.local_offset ≡ u64 (slot * g.a_half_bytes + q.1.local_offset))
unfolding merge_wrs forward_wrs row_block
forward_wrs-merge_wrs g node dev rings slot origin row cpr bank small =
    let h : Globals = other_node g node dev rings in
    let source : ℕ = u64 (slot * h.a_half_bytes) in
    let dst_slot : ℤ = slot_at_peer origin (next_rank h) h.num_nodes in
    let virtual : ℤ = plus dst_slot ((h.num_nodes - 1) * bank) in
    let (p, one_p, base_p, bytes_p) = merge_row_block-one g (2 * row) cpr in
    let (q, one_q, base_q, bytes_q) = merge_row_block-one g (2 * row + 1) cpr in
    let (p2, one_p2, base_p2, bytes_p2) =
      forward_row_block-one h virtual source (2 * row) cpr small in
    let (q2, one_q2, base_q2, bytes_q2) =
      forward_row_block-one h virtual source (2 * row + 1) cpr small in
    (
      p,
      q,
      p2,
      q2,
      rw (one_p, one_q) refl,
      rw (one_p2, one_q2) refl,
      cc,
      cc,
      omega (arith, base_p, base_p2),
      omega (arith, base_q, base_q2),
    )
