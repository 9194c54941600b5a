-- ===== src/GemmAr/Arrivals/Published.antt =====
-- A chunk's flag says whether its mask has as many bits as there are peers.
use m_kernel.Prelude.{
  ℕ, bit_or, if_known, if◌then◌else◌, ◌∙◌, ◌≡◌, ap, leb, ltb, update, if_both, sym, ◌-◌, ◌&&◌, refl,
  ◌==◌, Bool, arith, ◌≤◌, ==_iff, false, suc, true, min, ◌*◌, zero, ◌+◌, ◌/◌,
}
use m_kernel.GemmAr.Arrivals.{
  Arrived, FusedGlobals, mark_chunk, peer_bit, popc, drain_arrival_queue, drain_from, mark_tiles,
  take_arrival, head_on, queue_word,
}
use m_kernel.GemmAr.Arrivals.Bits.{popc-bit_or}

-- The flag of a chunk with these bits.
abbrev pub flag_for : FusedGlobals → (mask : ℕ) → ℕ
flag_for g mask = if leb (g.num_nodes - 1) (popc 32 mask) then 1 else 0

abbrev pub IsPublished : FusedGlobals → Arrived → Type 0
IsPublished g s = (c : ℕ) → s.remote_arrived_flag c ≡ flag_for g (s.remote_arrived_peer_mask c)

-- The bits of the chunk after a mark.
abbrev pub new_mask : ℕ → ℕ → Arrived → ℕ
new_mask peer chunk s = bit_or (s.remote_arrived_peer_mask chunk) (peer_bit peer)

pub mark-mask :
    (g : FusedGlobals) (peer chunk : ℕ) (s : Arrived)
    → (mark_chunk g peer chunk s).remote_arrived_peer_mask
      ≡ update s.remote_arrived_peer_mask chunk (new_mask peer chunk s)
unfolding mark_chunk
mark-mask g peer chunk s =
    if_both
      (λ (t : Arrived).
        t.remote_arrived_peer_mask
        ≡ update s.remote_arrived_peer_mask chunk (new_mask peer chunk s))
      (ltb (popc 32 (s.remote_arrived_peer_mask chunk)) (g.num_nodes - 1)
        && leb (g.num_nodes - 1) (popc 32 (new_mask peer chunk s)))
      refl refl

-- An outcome of the test for the last peer, and the flag that it leaves.
Flagged : FusedGlobals → (peer chunk : ℕ) → Arrived → Arrived → Type 0
Flagged g peer chunk s t =
    (c : ℕ)
    → t.remote_arrived_flag c
      ≡ flag_for g (update s.remote_arrived_peer_mask chunk (new_mask peer chunk s) c)

last_raises :
    (g : FusedGlobals) (b : Bool) (x y flag : ℕ)
    → leb (g.num_nodes - 1) (popc 32 x) ≡ true
    → flag ≡ flag_for g y
    → (if b then 1 else flag) ≡ flag_for g (if b then x else y)
last_raises g true x y flag full is = ground arith
last_raises g false x y flag full is = is

others_keep :
    (g : FusedGlobals) (b : Bool) (x y flag : ℕ)
    → (b ≡ true → flag ≡ flag_for g x)
    → flag ≡ flag_for g y
    → flag ≡ flag_for g (if b then x else y)
others_keep g true x y flag here is = here refl
others_keep g false x y flag here is = is

-- The flag stays right as long as the last missing bit has not come.
not_last :
    (needed old new : ℕ)
    → old ≤ new
    → (ltb old needed && leb needed new) ≡ false
    → ◌≡◌ {A = ℕ} (if leb needed old then 1 else 0) (if leb needed new then 1 else 0)
not_last needed old new le early = ground arith

mark-Flagged :
    (g : FusedGlobals) (peer chunk : ℕ) (s : Arrived)
    → IsPublished g s
    → Flagged g peer chunk s (mark_chunk g peer chunk s)
unfolding mark_chunk Flagged
mark-Flagged g peer chunk s ok =
    if_known (Flagged g peer chunk s)
      (ltb (popc 32 (s.remote_arrived_peer_mask chunk)) (g.num_nodes - 1)
        && leb (g.num_nodes - 1) (popc 32 (new_mask peer chunk s)))
      (λ last c.
        last_raises g (chunk == c) (new_mask peer chunk s) (s.remote_arrived_peer_mask c)
          (s.remote_arrived_flag c) (ground (arith, last)) (ok c))
      (λ early c.
        others_keep g (chunk == c) (new_mask peer chunk s) (s.remote_arrived_peer_mask c)
          (s.remote_arrived_flag c)
          (λ same.
            ap s.remote_arrived_flag (sym ((==_iff chunk c).0 same))
            ∙ ok chunk
            ∙ not_last (g.num_nodes - 1) (popc 32 (s.remote_arrived_peer_mask chunk))
                (popc 32 (new_mask peer chunk s))
                (popc-bit_or 32 (s.remote_arrived_peer_mask chunk) (peer_bit peer)) early)
          (ok c))

pub mark-IsPublished :
    (g : FusedGlobals) (peer chunk : ℕ) (s : Arrived)
    → IsPublished g s
    → IsPublished g (mark_chunk g peer chunk s)
unfolding Flagged
mark-IsPublished g peer chunk s ok c =
    mark-Flagged g peer chunk s ok c ∙ ap (λ m. flag_for g (m c)) (sym (mark-mask g peer chunk s))

mark_tiles-IsPublished :
    (rounds : ℕ) (g : FusedGlobals) (peer rb col work : ℕ) (s : Arrived)
    → IsPublished g s
    → IsPublished g (mark_tiles rounds g peer rb col work s)
unfolding mark_tiles
mark_tiles-IsPublished zero g peer rb col work s ok = ok
mark_tiles-IsPublished (suc rounds) g peer rb col work s ok =
    let used : ℕ = min work (min g.chunk_tiles (g.col_blocks - col)) in
    let chunk : ℕ = rb * g.chunks_per_row + col / g.chunk_tiles in
    if_both (IsPublished g) (ltb 0 work && ltb col g.col_blocks && ltb 0 used)
      (mark_tiles-IsPublished rounds g peer rb (col + used) (work - used)
        (mark_chunk g peer chunk s) (mark-IsPublished g peer chunk s ok))
      ok

take-IsPublished :
    (g : FusedGlobals) (flag_val : ℕ) (s : Arrived)
    → IsPublished g s
    → IsPublished g (take_arrival g flag_val s)
unfolding take_arrival
take-IsPublished g flag_val s ok = mark_tiles-IsPublished _ g _ _ _ _ s ok

drain_from-IsPublished :
    (rounds : ℕ) (g : FusedGlobals) (q : ℕ) (any : Bool) (s : Arrived)
    → IsPublished g s
    → IsPublished g (drain_from rounds g q any s).1
unfolding drain_from
drain_from-IsPublished zero g q any s ok = ok
drain_from-IsPublished (suc rounds) g q any s ok =
    let flag_val : ℕ = queue_word g s q (s.arrival_queue_head q) in
    if_both (λ (r : Bool × Arrived). IsPublished g r.1)
      (ltb (s.arrival_queue_head q) g.remote_queue_stride && ltb 0 flag_val)
      (drain_from-IsPublished rounds g q true (take_arrival g flag_val (head_on q s))
        (take-IsPublished g flag_val (head_on q s) ok))
      ok

-- Draining a queue keeps the following, whatever words the queue holds: the flag of each chunk is 1
-- if the chunk's mask has at least as many bits set as there are other nodes, and else 0.
pub drain-IsPublished :
    (g : FusedGlobals) (q : ℕ) (s : Arrived)
    → IsPublished g s
    → IsPublished g (drain_arrival_queue g q s).1
unfolding drain_arrival_queue
drain-IsPublished g q s ok =
    drain_from-IsPublished (g.remote_queue_stride - s.arrival_queue_head q) g q false s ok
