-- ===== src/GemmAr/Scratch/Apart.antt =====
-- The regions of the scratch memory do not overlap.
use m_kernel.Prelude.{
  ℕ, List, Option, get_elem?, ◌/◌, ◌<◌, ◌∷◌, ◌≡◌, ◌≤◌, arith, some, ◌*◌, ◌+◌, [], suc, refl, zero,
  true, Bool-cases, inl, ap, sym, ◌∙◌, inr,
}
use m_kernel.GemmAr.Scratch.{ScratchLayout, layout_numbers, compute_scratch_layout, ints_fit}
use mathlib.Core.Path.{subst}

-- Where each region begins, and how many words it has: a word for each chunk, queue, place of a ring
-- or tile, and single words; `all_row_blocks` counts the row-blocks of all slices.
abbrev pub regions : (num_remote_queues all_row_blocks : ℕ) → ScratchLayout → List (ℕ × ℕ)
regions num_remote_queues all_row_blocks s =
    (s.chunk_remote_arrived_offset, s.total_chunks)
    ∷ (s.arrival_queue_head_offset, num_remote_queues)
    ∷ (s.local_ar_done_offset, 1)
    ∷ (s.send_issued_offset, 1)
    ∷ (s.remote_arrived_offset, 1)
    ∷ (s.published_offset, 1)
    ∷ (s.final_publish_done_offset, 1)
    ∷ (s.debug_flags_offset, 1)
    ∷ (s.debug_dump_counter_offset, 1)
    ∷ (s.queue_expected_offset, num_remote_queues)
    ∷ (s.queue_observed_offset, num_remote_queues)
    ∷ (s.row_send_count_offset, s.row_blocks_per_slice)
    ∷ (s.gemm_tiles_ready_count_offset, s.total_chunks)
    ∷ (s.gemm_tile_scanned_offset, s.slice_tiles)
    ∷ (s.gemm_rq_entries_offset, s.gemm_rq_capacity)
    ∷ (s.gemm_rq_head_offset, 1)
    ∷ (s.gemm_rq_tail_offset, 1)
    ∷ (s.gemm_scan_cursor_offset, 1)
    ∷ (s.local_ar_rq_entries_offset, s.local_ar_rq_capacity)
    ∷ (s.local_ar_rq_head_offset, 1)
    ∷ (s.local_ar_rq_tail_offset, 1)
    ∷ (s.remote_rq_entries_offset, s.remote_rq_capacity)
    ∷ (s.remote_rq_head_offset, 1)
    ∷ (s.remote_rq_tail_offset, 1)
    ∷ (s.owner_pending_entries_offset, num_remote_queues * s.owner_pending_capacity)
    ∷ (s.owner_pending_head_offset, num_remote_queues)
    ∷ (s.owner_pending_tail_offset, num_remote_queues)
    ∷ (s.owner_pending_max_depth_offset, num_remote_queues)
    ∷ (s.owner_pending_push_count_offset, num_remote_queues)
    ∷ (s.owner_pending_pop_count_offset, num_remote_queues)
    ∷ (s.local_done_flag_offset, s.total_chunks)
    ∷ (s.remote_arrived_flag_offset, s.total_chunks)
    ∷ (s.remote_arrived_peer_mask_offset, s.total_chunks)
    ∷ (s.intra_started_flag_offset, 16)
    ∷ (s.reduce_cursor_offset, 1)
    ∷ (s.chunk_claimed_flag_offset, s.total_chunks)
    ∷ (s.comp_chunk_tiles_done_offset, all_row_blocks * s.chunks_per_row)
    ∷ (s.intra_chunk_tiles_done_offset, s.total_chunks)
    ∷ (s.xnode_ready_offset, 1)
    ∷ []

-- The regions lie one behind the other, from a start to an end.
abbrev pub Packed : ℕ → List (ℕ × ℕ) → ℕ → Type 0
Packed start [] end = start ≡ end
Packed start (r ∷ rs) end = (r.0 ≡ start) × Packed (r.0 + r.1) rs end

Packed-end : (start : ℕ) (rs : List (ℕ × ℕ)) (end : ℕ) → Packed start rs end → start ≤ end
Packed-end start [] end h = omega arith
Packed-end start (r ∷ rs) end h = omega (arith, h.0, Packed-end (r.0 + r.1) rs end h.1)

pub Packed-within :
    (start : ℕ) (rs : List (ℕ × ℕ)) (end j : ℕ) (t : ℕ × ℕ)
    → Packed start rs end
    → get_elem? rs j ≡ some t
    → (start ≤ t.0) × (t.0 + t.1 ≤ end)
Packed-within start [] end j t h at = absurd (cc)
Packed-within start (r ∷ rs) end zero t h at =
    let same : r ≡ t = cc at in
    subst (λ (x : ℕ × ℕ). (start ≤ x.0) × (x.0 + x.1 ≤ end)) same
      (omega (arith, h.0), Packed-end (r.0 + r.1) rs end h.1)
Packed-within start (r ∷ rs) end (suc j) t h at =
    let (after, under) = Packed-within (r.0 + r.1) rs end j t h.1 at in
    (omega (arith, h.0, after), under)

Packed-apart :
    (start : ℕ) (rs : List (ℕ × ℕ)) (end i j : ℕ) (r t : ℕ × ℕ)
    → Packed start rs end
    → i < j
    → get_elem? rs i ≡ some r
    → get_elem? rs j ≡ some t
    → (r.0 + r.1 ≤ t.0) × (t.0 + t.1 ≤ end)
Packed-apart start [] end i j r t h lt at_i at_j = absurd (cc)
Packed-apart start (x ∷ rs) end i zero r t h lt at_i at_j = absurd (omega arith)
Packed-apart start (x ∷ rs) end zero (suc j) r t h lt at_i at_j =
    let same : x ≡ r = cc at_i in
    subst (λ (y : ℕ × ℕ). (y.0 + y.1 ≤ t.0) × (t.0 + t.1 ≤ end)) same
      (Packed-within (x.0 + x.1) rs end j t h.1 at_j)
Packed-apart start (x ∷ rs) end (suc i) (suc j) r t h lt at_i at_j =
    Packed-apart (x.0 + x.1) rs end i j r t h.1 (omega arith) at_i at_j

pub layout-Packed :
    (env : Option ℕ)
    (num_devices m_rows n_cols num_remote_queues num_allocated_remote_queues num_nodes : ℕ)
    → Packed 0
        (regions num_remote_queues (m_rows / 128) (
          layout_numbers env num_devices m_rows n_cols num_remote_queues num_allocated_remote_queues
            num_nodes))
        (layout_numbers env num_devices m_rows n_cols num_remote_queues num_allocated_remote_queues
          num_nodes).scratch_ints_needed
unfolding layout_numbers
layout-Packed env num_devices m_rows n_cols num_remote_queues num_allocated_remote_queues
      num_nodes =
    (
      refl,
      (
        refl,
        (
          refl,
          (
            refl,
            (
              refl,
              (
                refl,
                (
                  refl,
                  (
                    refl,
                    (
                      refl,
                      (
                        refl,
                        (
                          refl,
                          (
                            refl,
                            (
                              refl,
                              (
                                refl,
                                (
                                  refl,
                                  (
                                    refl,
                                    (
                                      refl,
                                      (
                                        refl,
                                        (
                                          refl,
                                          (
                                            refl,
                                            (
                                              refl,
                                              (
                                                refl,
                                                (
                                                  refl,
                                                  (
                                                    refl,
                                                    (
                                                      refl,
                                                      (
                                                        refl,
                                                        (
                                                          refl,
                                                          (
                                                            refl,
                                                            (
                                                            refl,
                                                            (
                                                            refl,
                                                            (
                                                            refl,
                                                            (
                                                            refl,
                                                            (
                                                            refl,
                                                            (
                                                            refl,
                                                            (
                                                            refl,
                                                            (refl, (refl, (refl, (refl, refl)))),
                                                            ),
                                                            ),
                                                            ),
                                                            ),
                                                            ),
                                                            ),
                                                            ),
                                                          ),
                                                        ),
                                                      ),
                                                    ),
                                                  ),
                                                ),
                                              ),
                                            ),
                                          ),
                                        ),
                                      ),
                                    ),
                                  ),
                                ),
                              ),
                            ),
                          ),
                        ),
                      ),
                    ),
                  ),
                ),
              ),
            ),
          ),
        ),
      ),
    )

-- A layout that is computed has the numbers of the source.
pub computed :
    (env : Option ℕ)
    (num_devices m_rows n_cols num_remote_queues num_allocated_remote_queues num_nodes : ℕ)
    (s : ScratchLayout)
    → compute_scratch_layout env num_devices m_rows n_cols num_remote_queues
        num_allocated_remote_queues num_nodes
      ≡ some s
    → (layout_numbers env num_devices m_rows n_cols num_remote_queues num_allocated_remote_queues
          num_nodes
        ≡ s)
      × (ints_fit s num_allocated_remote_queues num_nodes ≡ true)
unfolding compute_scratch_layout
computed env num_devices m_rows n_cols num_remote_queues num_allocated_remote_queues num_nodes s
      made =
    elim (Bool-cases (
      ints_fit
        (layout_numbers env num_devices m_rows n_cols num_remote_queues num_allocated_remote_queues
          num_nodes)
        num_allocated_remote_queues num_nodes)) [
          | inl fits ↦
              let same : layout_numbers env num_devices m_rows n_cols num_remote_queues
                    num_allocated_remote_queues num_nodes
                  ≡ s =
                cc (rw fits at made) in
              (same, ap (λ t. ints_fit t num_allocated_remote_queues num_nodes) (sym same) ∙ fits)
          | inr over ↦ absurd (cc (rw over at made))
        ]

-- Of any two regions of the scratch memory, the one that is listed first ends before the other
-- begins, and that one ends within the words that the layout asks for; so no two kernels' arrays
-- overlap, for all sizes of the problem and of the queues for which no `int` of the computation
-- overflows.
pub layout-apart :
    (env : Option ℕ)
    (num_devices m_rows n_cols num_remote_queues num_allocated_remote_queues num_nodes : ℕ)
    (s : ScratchLayout) (i j : ℕ) (r t : ℕ × ℕ)
    → compute_scratch_layout env num_devices m_rows n_cols num_remote_queues
        num_allocated_remote_queues num_nodes
      ≡ some s
    → i < j
    → get_elem? (regions num_remote_queues (m_rows / 128) s) i ≡ some r
    → get_elem? (regions num_remote_queues (m_rows / 128) s) j ≡ some t
    → (r.0 + r.1 ≤ t.0) × (t.0 + t.1 ≤ s.scratch_ints_needed)
layout-apart env num_devices m_rows n_cols num_remote_queues num_allocated_remote_queues num_nodes s
      i j r t made lt at_i at_j =
    Packed-apart 0 (regions num_remote_queues (m_rows / 128) s) s.scratch_ints_needed i j r t
      (subst
        (λ (u : ScratchLayout).
          Packed 0 (regions num_remote_queues (m_rows / 128) u) u.scratch_ints_needed)
        (computed env num_devices m_rows n_cols num_remote_queues num_allocated_remote_queues
          num_nodes s made).0
        (layout-Packed env num_devices m_rows n_cols num_remote_queues num_allocated_remote_queues
          num_nodes))
      lt at_i at_j
