-- ===== src/GemmAr/Arrivals.antt =====
-- include/operators/gemm_ar/gemm_ar.cuh: draining an arrival queue into the flags of the chunks.
pub mod Bits
pub mod Published
pub mod Marks
pub mod Drains
pub mod Sends
pub mod Shape
pub mod Carried
mod Tests
use m_kernel.Prelude.{
  ℕ, zero, suc, ◌+◌, ◌-◌, ◌*◌, ◌/◌, ◌%◌, ◌^◌, Bool, true, false, ltb, leb, ◌&&◌, ◌==◌,
  if◌then◌else◌, min, max, bit_or, update, u8, u16, u32, u64, Option,
}
use m_kernel.Types.{
  TransferCmd, CmdType, zero_cmd, unpack_arrival_first_tile, unpack_arrival_num_tiles,
  peer_rank_for_slot, slot_at_peer,
}
use m_kernel.GemmAr.Chunks.{Chunk, chunk_decode}

-- The constants of `fused_globals` that the functions read.
pub record FusedGlobals : Type 0 where
  pub remote_queue_stride : ℕ
  pub total_tiles_per_device : ℕ
  pub col_blocks : ℕ
  pub chunks_per_row : ℕ
  pub chunk_tiles : ℕ
  pub num_nodes : ℕ
  pub node_idx : ℕ
  pub dev_idx : ℕ
  pub row_blocks_per_slice : ℕ
  pub num_remote_queues : ℕ
  pub num_devices : ℕ  -- `NUM_DEVICES`, which the build sets

-- The memory that `fused_globals` points to.
pub record Arrived : Type 0 where
  pub arrival_flags : ℕ → ℕ
  pub arrival_queue_head : ℕ → ℕ
  pub queue_observed_arrivals : ℕ → ℕ
  pub remote_arrived_peer_mask : ℕ → ℕ
  pub remote_arrived_chunks : ℕ
  pub remote_arrived_flag : ℕ → ℕ

-- `__popc`, by the width of the word.
unfoldable pub popc : (width : ℕ) → ℕ → ℕ
popc zero x = 0
popc (suc w) x = x % 2 + popc w (x / 2)

unfoldable pub peer_bit : ℕ → ℕ
peer_bit peer_slot = if ltb peer_slot 31 then 2 ^ peer_slot else 0

-- What a round of the inner loop does to a chunk; `1u` is stored before the next arrival is read.
unfoldable pub mark_chunk : FusedGlobals → (peer_slot chunk_id : ℕ) → Arrived → Arrived
mark_chunk g peer_slot chunk_id s =
    let old_mask : ℕ = s.remote_arrived_peer_mask chunk_id in
    let new_mask : ℕ = bit_or old_mask (peer_bit peer_slot) in
    let needed_peers : ℕ = g.num_nodes - 1 in
    let masked : Arrived = record s {
      remote_arrived_peer_mask = update s.remote_arrived_peer_mask chunk_id new_mask;
    } in
    if ltb (popc 32 old_mask) needed_peers && leb needed_peers (popc 32 new_mask)
    then record masked {
      remote_arrived_chunks = u32 (s.remote_arrived_chunks + 1);
      remote_arrived_flag = update s.remote_arrived_flag chunk_id 1;
    }
    else masked

-- The inner loop. Every round takes at least one tile, so as many rounds as tiles are enough.
unfoldable pub mark_tiles :
    (rounds : ℕ) → FusedGlobals → (peer_slot rb col_start work_tiles : ℕ) → Arrived → Arrived
mark_tiles zero g peer_slot rb col_start work_tiles s = s
mark_tiles (suc rounds) g peer_slot rb col_start work_tiles s =
    let chunk_id : ℕ = rb * g.chunks_per_row + col_start / g.chunk_tiles in
    let tiles_this_chunk : ℕ = min g.chunk_tiles (g.col_blocks - col_start) in
    let consumed_tiles : ℕ = min work_tiles tiles_this_chunk in
    let rest : Arrived =
      mark_tiles rounds g peer_slot rb (col_start + consumed_tiles) (work_tiles - consumed_tiles)
        (mark_chunk g peer_slot chunk_id s) in
    if ltb 0 work_tiles && ltb col_start g.col_blocks && ltb 0 consumed_tiles then rest else s

-- An `int` that is brought up to 0 if it is negative.
abbrev pub int_or_zero : ℕ → ℕ
int_or_zero word = if ltb word (2 ^ 31) then word else 0

-- What an arrival word does. The column lies in the row, since it is a remainder.
unfoldable pub take_arrival : FusedGlobals → (flag_val : ℕ) → Arrived → Arrived
take_arrival g flag_val s =
    let first_tile : ℕ = int_or_zero (unpack_arrival_first_tile flag_val) in
    let peer_slot : ℕ = first_tile / g.total_tiles_per_device in
    let local_first_tile : ℕ = first_tile - peer_slot * g.total_tiles_per_device in
    let rb : ℕ = local_first_tile / g.col_blocks in
    let col_start : ℕ = local_first_tile - rb * g.col_blocks in
    let work_tiles : ℕ = min (unpack_arrival_num_tiles flag_val) (g.col_blocks - col_start) in
    mark_tiles work_tiles g peer_slot rb col_start work_tiles s

-- The place of the queue that is read next.
abbrev pub queue_word : FusedGlobals → Arrived → (q place : ℕ) → ℕ
queue_word g s q place = s.arrival_flags (q * g.remote_queue_stride + place)

-- The head and the counter of a queue go on by one.
abbrev pub head_on : (q : ℕ) → Arrived → Arrived
head_on q s = record s {
  arrival_queue_head = update s.arrival_queue_head q (u32 (s.arrival_queue_head q + 1));
  queue_observed_arrivals =
      update s.queue_observed_arrivals q (u32 (s.queue_observed_arrivals q + 1));
}

-- The outer loop, of at most as many rounds as places are left; it also returns whether there was
-- any arrival.
unfoldable pub drain_from : (rounds : ℕ) → FusedGlobals → (q : ℕ) → Bool → Arrived → Bool × Arrived
drain_from zero g q any s = (any, s)
drain_from (suc rounds) g q any s =
    let flag_val : ℕ = queue_word g s q (s.arrival_queue_head q) in
    let rest : Bool × Arrived =
      drain_from rounds g q true (take_arrival g flag_val (head_on q s)) in
    if ltb (s.arrival_queue_head q) g.remote_queue_stride && ltb 0 flag_val then rest else (any, s)

unfoldable pub drain_arrival_queue : FusedGlobals → (q : ℕ) → Arrived → Bool × Arrived
drain_arrival_queue g q s = drain_from (g.remote_queue_stride - s.arrival_queue_head q) g q false s
