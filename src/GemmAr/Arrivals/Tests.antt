-- ===== src/GemmAr/Arrivals/Tests.antt =====
-- Three nodes of 3 row-blocks of 7 columns, and one arrival in the queue.
use m_kernel.GemmAr.Arrivals.{
  FusedGlobals, Arrived, take_arrival, drain_arrival_queue, drain_from, popc, mark_tiles,
  mark_chunk, peer_bit,
}
use m_kernel.Prelude.{ℕ, update, arith, false, ◌≡◌, refl}
use m_kernel.GemmAr.Chunks.{chunk_tiles, chunks_per_row}
use m_kernel.GemmAr.Arrivals.Drains.{IsDrained, drain-IsDrained}
use m_kernel.Types.{unpack_arrival_first_tile, unpack_arrival_num_tiles}
use m_kernel.GemmAr.Arrivals.Published.{IsPublished, drain-IsPublished}

abbrev three_nodes : FusedGlobals
three_nodes = record {
  remote_queue_stride = 4;
  total_tiles_per_device = 21;
  col_blocks = 7;
  chunks_per_row = 2;
  chunk_tiles = 4;
  num_nodes = 3;
  node_idx = 1;
  dev_idx = 0;
  row_blocks_per_slice = 3;
  num_remote_queues = 2;
  num_devices = 8;
}

-- The tiles from 8 on, three of them, from the peer in slot 0.
abbrev one_arrival : Arrived
one_arrival = record {
  arrival_flags = update (λ _. 0) 4 0x02000009;
  arrival_queue_head = λ _. 0;
  queue_observed_arrivals = λ _. 0;
  remote_arrived_peer_mask = λ _. 2;
  remote_arrived_chunks = 0;
  remote_arrived_flag = λ _. 0;
}

-- Both peers have now delivered chunk 2.
second_peer : (drain_arrival_queue three_nodes 1 one_arrival).1.remote_arrived_flag 2 ≡ 1
unfolding drain_arrival_queue drain_from take_arrival mark_tiles mark_chunk popc peer_bit
    unpack_arrival_first_tile unpack_arrival_num_tiles
second_peer = refl

drain-IsPublished_example :
    IsPublished three_nodes (drain_arrival_queue three_nodes 1 one_arrival).1
unfolding popc
drain-IsPublished_example = drain-IsPublished three_nodes 1 one_arrival (λ c. refl)

drain-IsDrained_example :
    (n : ℕ) × IsDrained three_nodes 1 one_arrival false
      (drain_arrival_queue three_nodes 1 one_arrival)
      n
drain-IsDrained_example =
    drain-IsDrained three_nodes 1 one_arrival (omega arith) (omega arith) (omega arith)
