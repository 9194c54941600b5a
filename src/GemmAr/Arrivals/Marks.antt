-- ===== src/GemmAr/Arrivals/Marks.antt =====
-- Which bits the tiles of an arrival set.
use m_kernel.Prelude.{
  ℕ, if◌then◌else◌, ◌+◌, leb, update, bit_or, ◌&&◌, ltb, ◌<◌, ◌≡◌, suc, min, zero, ℕ_discrete,
  arith, refl, ◌-◌, update_ne, ◌*◌, ◌/◌, ◌∙◌, ◌≤◌, ap, high_digit, sym,
}
use m_kernel.GemmAr.Arrivals.{mark_tiles, FusedGlobals, Arrived, mark_chunk, peer_bit}
use m_kernel.GemmAr.Arrivals.Published.{mark-mask}

-- The masks with a bit set in a range of chunks.
abbrev pub set_range : (lo k bit : ℕ) → (ℕ → ℕ) → ℕ → ℕ
set_range lo k bit mask x = if leb lo x && ltb x (lo + k) then bit_or (mask x) bit else mask x

set_range-next :
    (lo k bit : ℕ) (mask : ℕ → ℕ) (x : ℕ)
    → set_range (lo + 1) k bit (update mask lo (bit_or (mask lo) bit)) x
      ≡ set_range lo (suc k) bit mask x
set_range-next lo k bit mask x = elim (ℕ_discrete lo x) [
  | yes e ↦ rw e (ground arith)
  | no ne ↦ ground (arith, update_ne mask lo x (bit_or (mask lo) bit) ne)
]

mark_tiles-none :
    (rounds : ℕ) (g : FusedGlobals) (peer rb col work : ℕ) (s : Arrived)
    → work ≡ 0
    → mark_tiles rounds g peer rb col work s ≡ s
unfolding mark_tiles
mark_tiles-none zero g peer rb col work s none_left = refl
mark_tiles-none (suc rounds) g peer rb col work s none_left = rw none_left refl

-- One round, where there are tiles left in the row.
mark_tiles-round :
    (rounds : ℕ) (g : FusedGlobals) (peer rb col work : ℕ) (s : Arrived)
    → 0 < work
    → col < g.col_blocks
    → 0 < g.chunk_tiles
    → mark_tiles (suc rounds) g peer rb col work s
      ≡ mark_tiles rounds g peer rb
          (col + min work (min g.chunk_tiles (g.col_blocks - col)))
          (work - min work (min g.chunk_tiles (g.col_blocks - col)))
          (mark_chunk g peer (rb * g.chunks_per_row + col / g.chunk_tiles) s)
unfolding mark_tiles
mark_tiles-round rounds g peer rb col work s some room tiles = ground arith

-- The tiles of `k` chunks from chunk `c` of the row on.
abbrev pub tiles_of : FusedGlobals → (c k : ℕ) → ℕ
tiles_of g c k = min (k * g.chunk_tiles) (g.col_blocks - c * g.chunk_tiles)

-- The place of the first of these chunks.
abbrev pub chunk_at : FusedGlobals → (rb c : ℕ) → ℕ
chunk_at g rb c = rb * g.chunks_per_row + c

chunk_start :
    (g : FusedGlobals) (rb c : ℕ)
    → 0 < g.chunk_tiles
    → rb * g.chunks_per_row + c * g.chunk_tiles / g.chunk_tiles ≡ chunk_at g rb c
chunk_start g rb c tiles = ground (arith, high_digit g.chunk_tiles c 0 tiles)

same_rest :
    (rounds : ℕ) (g : FusedGlobals) (peer rb : ℕ) (s : Arrived) {a b v w x y : ℕ}
    → a ≡ b
    → v ≡ w
    → x ≡ y
    → mark_tiles rounds g peer rb a v (mark_chunk g peer x s)
      ≡ mark_tiles rounds g peer rb b w (mark_chunk g peer y s)
same_rest rounds g peer rb s e f h = cc (e, f, h)

first_round :
    (rounds : ℕ) (g : FusedGlobals) (peer rb c k : ℕ) (s : Arrived)
    → 0 < g.chunk_tiles
    → (c + k) * g.chunk_tiles < g.col_blocks
    → mark_tiles (suc rounds) g peer rb (c * g.chunk_tiles) (tiles_of g c (suc k)) s
      ≡ mark_tiles rounds g peer rb
          ((c + 1) * g.chunk_tiles)
          (tiles_of g (c + 1) k)
          (mark_chunk g peer (chunk_at g rb c) s)
first_round rounds g peer rb c zero s tiles room =
    mark_tiles-round rounds g peer rb (c * g.chunk_tiles) (tiles_of g c 1) s (omega arith)
      (omega arith) tiles
    ∙ same_rest rounds g peer rb s refl (omega arith) (chunk_start g rb c tiles)
    ∙ mark_tiles-none rounds g peer rb _ 0 (mark_chunk g peer (chunk_at g rb c) s) refl
    ∙ sym (
        mark_tiles-none rounds g peer rb ((c + 1) * g.chunk_tiles) (tiles_of g (c + 1) 0)
          (mark_chunk g peer (chunk_at g rb c) s) (omega arith))
first_round rounds g peer rb c (suc k) s tiles room =
    mark_tiles-round rounds g peer rb (c * g.chunk_tiles) (tiles_of g c (suc (suc k))) s
      (omega arith) (omega arith) tiles
    ∙ same_rest rounds g peer rb s (omega arith) (omega arith) (chunk_start g rb c tiles)

next_chunk : (g : FusedGlobals) (rb c : ℕ) → chunk_at g rb (c + 1) ≡ chunk_at g rb c + 1
next_chunk g rb c = omega arith

pub marks_group :
    (k rounds : ℕ) (g : FusedGlobals) (peer rb c : ℕ) (s : Arrived)
    → 0 < g.chunk_tiles
    → k ≤ rounds
    → ((j : ℕ) → j < k → (c + j) * g.chunk_tiles < g.col_blocks)
    → (x : ℕ)
    → (mark_tiles rounds g peer rb (c * g.chunk_tiles) (tiles_of g c k) s).remote_arrived_peer_mask
        x
      ≡ set_range (chunk_at g rb c) k (peer_bit peer) s.remote_arrived_peer_mask x
marks_group zero rounds g peer rb c s tiles le room x =
    ap (λ (t : Arrived). t.remote_arrived_peer_mask x)
      (mark_tiles-none rounds g peer rb (c * g.chunk_tiles) (tiles_of g c 0) s (omega arith))
    ∙ ground arith
marks_group (suc k) zero g peer rb c s tiles le room x = absurd (omega arith)
marks_group (suc k) (suc rounds) g peer rb c s tiles le room x =
    ap (λ (t : Arrived). t.remote_arrived_peer_mask x)
      (first_round rounds g peer rb c k s tiles (room k (omega arith)))
    ∙ marks_group k rounds g peer rb (c + 1) (mark_chunk g peer (chunk_at g rb c) s) tiles
        (omega arith) (λ j low. omega (arith, room (suc j) (omega arith))) x
    ∙ ap
        (λ lo.
          set_range lo k (peer_bit peer)
            (mark_chunk g peer (chunk_at g rb c) s).remote_arrived_peer_mask x)
        (next_chunk g rb c)
    ∙ ap (λ m. set_range (chunk_at g rb c + 1) k (peer_bit peer) m x)
        (mark-mask g peer (chunk_at g rb c) s)
    ∙ set_range-next (chunk_at g rb c) k (peer_bit peer) s.remote_arrived_peer_mask x
