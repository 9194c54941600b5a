-- ===== src/Proxy/Forward/Hops.antt =====
-- The next hop of a notification keeps the origin of the data.
use m_kernel.Prelude.{
  ℕ, ◌+◌, ◌-◌, ◌*◌, ◌/◌, ◌%◌, ◌<◌, ◌≡◌, high_digit, ◌^◌, ap, u64, u32, ◌∙◌, low_digit, arith, ◌≢◌,
  refl,
}
use m_kernel.Prelude.Int.{pos, int_of, quot, remainder}
use m_kernel.Types.{ForwardNotify, peer_rank_for_slot, slot_at_peer}
use m_kernel.Types.Routing.{rank-slot_at_peer}
use native.Mathlib.Nat.{mul-le-mul_left, mul-le-mul_right}
use m_kernel.Types.Routing.{slot-peer_rank}
use m_kernel.Proxy.{ProxyConfig, plus}
use m_kernel.Proxy.Forward.{make_forward_cmd, dst_virtual, times_word, rank_for_slot, slot_for_rank}

-- A tile of the table: a chunk of the data from the rank in `slot`, `bank` hops old.
abbrev pub tile_of : ℕ → ℕ → ℕ → ℕ → ℕ → ℕ
tile_of n_peers total_chunks slot bank chunk = (bank * n_peers + slot) * total_chunks + chunk

-- The parts of a tile are read back as the code reads them.
pub tile_of-parts :
    (n_peers total_chunks slot bank chunk : ℕ)
    → slot < n_peers
    → chunk < total_chunks
    → (tile_of n_peers total_chunks slot bank chunk / total_chunks % n_peers ≡ slot)
      × (tile_of n_peers total_chunks slot bank chunk / total_chunks / n_peers ≡ bank)
      × (tile_of n_peers total_chunks slot bank chunk % total_chunks ≡ chunk)
tile_of-parts n_peers total_chunks slot bank chunk hs hc =
    let virtual = high_digit total_chunks (bank * n_peers + slot) chunk hc in
    (
      ap (λ v. v % n_peers) virtual ∙ low_digit n_peers bank slot hs,
      ap (λ v. v / n_peers) virtual ∙ high_digit n_peers bank slot hs,
      low_digit total_chunks (bank * n_peers + slot) chunk hc,
    )

tile_least :
    (v : ℕ) {total_chunks chunk : ℕ}
    → chunk < total_chunks
    → (v + 1) * total_chunks < 2 ^ 32
    → v + 1 < 2 ^ 32
tile_least v {total_chunks} hc wide =
    omega (arith, mul-le-mul_left {m = 1} {n = total_chunks} (v + 1) (omega arith))

-- The command's words, for a place `v` of the data in the next rank's table.
tile_word :
    (v total_chunks chunk : ℕ)
    → chunk < total_chunks
    → (v + 1) * total_chunks < 2 ^ 32
    → u32 (times_word (2 ^ 32) (pos v) total_chunks + chunk) ≡ v * total_chunks + chunk
unfolding times_word
tile_word v total_chunks chunk hc wide =
    ap (λ x. u32 (u32 (x * total_chunks) + chunk)) small ∙ omega arith
  where
    small : v % 2 ^ 32 ≡ v
    small = omega (arith, tile_least v hc wide)

offset_word :
    (v size base : ℕ)
    → v < 2 ^ 64
    → u64 (times_word (2 ^ 64) (pos v) size + base) ≡ u64 (v * size + base)
unfolding times_word
offset_word v size base small = ap (λ x. u64 (u64 (x * size) + base)) v_small ∙ omega arith
  where
    v_small : v % 2 ^ 64 ≡ v
    v_small = omega arith

peer_ranks-ne :
    (rank num_nodes slot : ℕ)
    → rank < num_nodes
    → 0 < slot
    → slot + 1 < num_nodes
    → peer_rank_for_slot rank num_nodes slot ≢ peer_rank_for_slot rank num_nodes 0
unfolding peer_rank_for_slot
peer_ranks-ne rank num_nodes slot hr pos_slot hs e = ground arith

small_int : (w : ℕ) → w < 2 ^ 31 → int_of w ≡ pos w
small_int w small = ground arith

-- The words of the command, for a tile of known parts.
forward_words :
    (cfg : ProxyConfig) (n : ForwardNotify) (slot bank chunk there : ℕ)
    → n.tile_id ≡ tile_of (cfg.num_nodes - 1) cfg.total_chunks slot bank chunk
    → slot < cfg.num_nodes - 1
    → chunk < cfg.total_chunks
    → tile_of (cfg.num_nodes - 1) cfg.total_chunks slot bank chunk < 2 ^ 31
    → slot_at_peer
        (peer_rank_for_slot cfg.rank cfg.num_nodes slot)
        (peer_rank_for_slot cfg.rank cfg.num_nodes 0)
        cfg.num_nodes
      ≡ pos there
    → ((make_forward_cmd cfg n).tile_id
        ≡ u32 (
            times_word (2 ^ 32) (pos (there + (cfg.num_nodes - 1) * (bank + 1))) cfg.total_chunks
            + chunk))
      × ((make_forward_cmd cfg n).remote_offset
          ≡ u64 (
              times_word (2 ^ 64) (pos (there + (cfg.num_nodes - 1) * (bank + 1))) cfg.a_half_bytes
              + u32 (n.local_offset % cfg.a_half_bytes)))
unfolding make_forward_cmd dst_virtual plus quot remainder rank_for_slot slot_for_rank
forward_words cfg n slot bank chunk there e hs hc small q =
    let (at_slot, at_bank, at_chunk) =
      tile_of-parts (cfg.num_nodes - 1) cfg.total_chunks slot bank chunk hs hc in
    let word : int_of (tile_of (cfg.num_nodes - 1) cfg.total_chunks slot bank chunk)
        ≡ pos (tile_of (cfg.num_nodes - 1) cfg.total_chunks slot bank chunk) =
      small_int _ small in
    (rw (e, word, at_slot, at_bank, at_chunk, q) refl, rw (e, word, at_slot, at_bank, q) refl)

-- For a notification at `rank` of data whose origin is not the next rank, where the next rank's
-- table up to the new bank has fewer than 2^31 tiles: the command that forwards it names, in that
-- table, a slot that the next rank maps to the same origin, one bank further on and with the same
-- chunk; and its remote offset is, modulo 2^64, the start of that slot's block plus the low 32 bits
-- of the offset within the block that the data has here.
pub make_forward_cmd-origin :
    (cfg : ProxyConfig) (n : ForwardNotify) (slot bank chunk : ℕ)
    → n.tile_id ≡ tile_of (cfg.num_nodes - 1) cfg.total_chunks slot bank chunk
    → cfg.rank < cfg.num_nodes
    → 0 < slot
    → slot + 1 < cfg.num_nodes
    → chunk < cfg.total_chunks
    → (bank + 2) * (cfg.num_nodes - 1) * cfg.total_chunks < 2 ^ 31
    → (there : ℕ) × (there + 1 < cfg.num_nodes)
      × (peer_rank_for_slot (peer_rank_for_slot cfg.rank cfg.num_nodes 0) cfg.num_nodes there
          ≡ peer_rank_for_slot cfg.rank cfg.num_nodes slot)
      × ((make_forward_cmd cfg n).tile_id
          ≡ tile_of (cfg.num_nodes - 1) cfg.total_chunks there (bank + 1) chunk)
      × ((make_forward_cmd cfg n).remote_offset
          ≡ u64 (
              ((bank + 1) * (cfg.num_nodes - 1) + there) * cfg.a_half_bytes
              + u32 (n.local_offset % cfg.a_half_bytes)))
make_forward_cmd-origin cfg n slot bank chunk e hr pos_slot hs hc wide =
    let (here, _, _) = slot-peer_rank cfg.rank cfg.num_nodes slot hr hs in
    let (next, _, _) = slot-peer_rank cfg.rank cfg.num_nodes 0 hr (omega arith) in
    let (there, q, small, back) =
      rank-slot_at_peer (peer_rank_for_slot cfg.rank cfg.num_nodes slot)
        (peer_rank_for_slot cfg.rank cfg.num_nodes 0) cfg.num_nodes here next
        (peer_ranks-ne cfg.rank cfg.num_nodes slot hr pos_slot hs) in
    let v : ℕ = there + (cfg.num_nodes - 1) * (bank + 1) in
    let small_tile : tile_of (cfg.num_nodes - 1) cfg.total_chunks slot bank chunk < 2 ^ 31 = omega (
      arith,
      mul-le-mul_right {m = bank * (cfg.num_nodes - 1) + slot + 1}
          {n = (bank + 2) * (cfg.num_nodes - 1)} cfg.total_chunks (omega arith),
    ) in
    let (tile, offset) =
      forward_words cfg n slot bank chunk there e (omega arith) hc small_tile q in
    let place : v ≡ (bank + 1) * (cfg.num_nodes - 1) + there = omega arith in
    let fits : (v + 1) * cfg.total_chunks < 2 ^ 32 = omega (
      arith,
      mul-le-mul_right {m = v + 1} {n = (bank + 2) * (cfg.num_nodes - 1)} cfg.total_chunks
          (omega arith),
    ) in
    (
      there,
      small,
      back,
      tile
          ∙ tile_word v cfg.total_chunks chunk hc fits
          ∙ ap (λ x. x * cfg.total_chunks + chunk) place,
      offset
          ∙ offset_word v cfg.a_half_bytes _ (omega (arith, tile_least v hc fits))
          ∙ ap (λ x. u64 (x * cfg.a_half_bytes + u32 (n.local_offset % cfg.a_half_bytes))) place,
    )
