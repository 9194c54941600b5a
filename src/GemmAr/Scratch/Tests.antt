-- ===== src/GemmAr/Scratch/Tests.antt =====
-- The layout of a product of 16384 rows and 8192 columns on 8 devices, with 4 queues and 3 nodes.
use m_kernel.GemmAr.Scratch.{ScratchLayout, compute_scratch_layout, layout_numbers, ints_fit}
use m_kernel.GemmAr.Chunks.{chunk_tiles, chunks_per_row}
use m_kernel.Prelude.{none, ◌+◌, ◌≡◌, refl, ◌≤◌, arith, some}
use m_kernel.GemmAr.Scratch.Apart.{layout-apart}
use m_kernel.Prelude.{smear}

abbrev layout : ScratchLayout
layout = layout_numbers none 8 16384 8192 4 8 3

head_after_chunks : layout.arrival_queue_head_offset ≡ 128
unfolding layout_numbers chunk_tiles chunks_per_row
head_after_chunks = refl

layout_made : compute_scratch_layout none 8 16384 8192 4 8 3 ≡ some layout
unfolding compute_scratch_layout layout_numbers ints_fit chunk_tiles chunks_per_row smear
layout_made = refl

-- 2^24 rows and columns are too many.
overflows : compute_scratch_layout none 8 16777216 16777216 4 8 3 ≡ none
unfolding compute_scratch_layout layout_numbers ints_fit chunk_tiles chunks_per_row smear
overflows = refl

-- The heads of the queues, and the masks of the chunks.
layout-apart_example :
    (layout.arrival_queue_head_offset + 4 ≤ layout.remote_arrived_peer_mask_offset)
    × (layout.remote_arrived_peer_mask_offset + layout.total_chunks ≤ layout.scratch_ints_needed)
layout-apart_example =
    layout-apart none 8 16384 8192 4 8 3 layout 1 32 (layout.arrival_queue_head_offset, 4)
      (layout.remote_arrived_peer_mask_offset, layout.total_chunks) layout_made (omega arith) refl
      refl
