-- ===== src/Types/Routing.antt =====
-- `peer_rank_for_slot` and `slot_at_peer` of types.h invert one another.
use m_kernel.Prelude.{ℕ, ◌+◌, ◌-◌, ◌<◌, ◌≡◌, ◌≢◌, arith, leb, if◌then◌else◌}
use m_kernel.Prelude.Int.{pos}
use m_kernel.Types.{peer_rank_for_slot, slot_at_peer}

-- The slot of `my_rank` in the table of `peer_rank`, as a number.
abbrev pub ring_slot : ℕ → ℕ → ℕ → ℕ
ring_slot my_rank peer_rank num_nodes =
    if leb (peer_rank + 1) my_rank
    then my_rank - (peer_rank + 1)
    else my_rank + num_nodes - (peer_rank + 1)

pub slot_at_peer-eq-ring_slot :
    (my_rank peer_rank num_nodes : ℕ)
    → my_rank < num_nodes
    → peer_rank < num_nodes
    → slot_at_peer my_rank peer_rank num_nodes ≡ pos (ring_slot my_rank peer_rank num_nodes)
unfolding slot_at_peer
slot_at_peer-eq-ring_slot m p n hm hp = ground arith

-- For two different ranks below `num_nodes`, the slot that a sender uses at a peer is one of the
-- `num_nodes - 1` slots of that peer, and the peer's own table maps it back to the sender.
pub rank-slot_at_peer :
    (my_rank peer_rank num_nodes : ℕ)
    → my_rank < num_nodes
    → peer_rank < num_nodes
    → my_rank ≢ peer_rank
    → (slot : ℕ) × (slot_at_peer my_rank peer_rank num_nodes ≡ pos slot)
      × (slot + 1 < num_nodes)
      × (peer_rank_for_slot peer_rank num_nodes slot ≡ my_rank)
unfolding peer_rank_for_slot
rank-slot_at_peer m p n hm hp ne =
    (ring_slot m p n, slot_at_peer-eq-ring_slot m p n hm hp, ground arith, ground arith)

-- The other way round: for a rank below `num_nodes` and one of its `num_nodes - 1` peer slots, the
-- rank in the slot is another rank below `num_nodes`, and it is found in that very slot.
pub slot-peer_rank :
    (node_idx num_nodes peer_slot : ℕ)
    → node_idx < num_nodes
    → peer_slot + 1 < num_nodes
    → (peer_rank_for_slot node_idx num_nodes peer_slot < num_nodes)
      × (peer_rank_for_slot node_idx num_nodes peer_slot ≢ node_idx)
      × (slot_at_peer (peer_rank_for_slot node_idx num_nodes peer_slot) node_idx num_nodes
          ≡ pos peer_slot)
unfolding peer_rank_for_slot slot_at_peer
slot-peer_rank i n s hi hs = (ground arith, ground arith, ground arith)
