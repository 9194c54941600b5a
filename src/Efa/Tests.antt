-- ===== src/Efa/Tests.antt =====
-- The EFA proxy at concrete inputs.
use m_kernel.Prelude.{
  ℕ, List, Option, false, ◌+◌, ◌∷◌, [], some, true, ◌*◌, ◌==◌, ◌≡◌, if◌then◌else◌, length, none,
  refl, u32, arith, ◌-◌,
}
use m_kernel.Proxy.Setup.{int_product}
use m_kernel.Types.{TransferCmd, zero_cmd, CmdType}
use m_kernel.Efa.{Efa, EfaConfig, Peer, Completion, stage}
use m_kernel.Efa.Setup.{new_efa, efa_normalized, efa_qp_cap}
use m_kernel.Efa.Loop.Turns.{PostedKept, turns, turns-post_kept}
use m_kernel.Efa.Post.Counts.{id_sum}
use m_kernel.Efa.Loop.{batch_requests, post_efa_batch}
use m_kernel.Efa.Post.{
  remote_flag_batch, flag_loop, cmd_requests, queue_requests, in_order, efa_data, efa_word,
}
use m_kernel.Efa.Collect.{kind, map_to_local_qp, EfaCollected, efa_collect, drain_and_notify}
use m_kernel.Efa.Drain.{complete_one, drain_all, complete_all, efa_drain, drain_loop}
use m_kernel.Efa.Post.Places.{on_queue}
use m_kernel.Prelude.Int.{negsuc, pos}
use m_kernel.Efa.Loop.Retry.{batch_requests-id_sum}
use m_kernel.Efa.Loop.Holes.{post-refused-places}
use m_kernel.Efa.Drain.Arrivals.{drain_all-arrivals}
use m_kernel.Efa.Collect.Overtaken.{barrier-overtaken}
use m_kernel.Proxy.Strided.{logical_queue}
use m_kernel.Proxy.Loop.{is_busy}

abbrev peer_at : ℕ → Peer
peer_at p = record {
  dst_ah = 100 + p;
  dst_qpns = λ q. 10 * p + q;
  remote_data_addr = 0x100000;
  remote_data_rkey = 1;
  remote_flags_addr = 0x200000;
  remote_flags_rkey = 2;
  remote_tail_addr = 0x300000;
  remote_tail_rkey = 3;
  remote_barrier_addr = 0x400000;
  remote_barrier_rkey = 4;
}

-- Two QPs and three peers, in the queue layout with tail writes.
abbrev efa_config : EfaConfig
efa_config = record {
  num_fifos = 1;
  has_fifos = false;
  num_qps = 2;
  global_num_qps = 4;
  logical_queues_per_qp = 2;
  local_data_addr = 0x10000;
  local_data_lkey = 5;
  clocal_data_addr = 0x20000;
  clocal_data_lkey = 6;
  direct_dmabuf_enabled = true;
  local_arrival_count = 64;
  has_staging = true;
  staging_addr = 0x1000;
  staging_lkey = 7;
  staging_count = 1024;
  use_arrival_queue = true;
  remote_queue_stride = 256;
  enable_remote_tail = true;
  epoch = 9;
  max_inflight = 0;
  sq_depth = 0;
  pipeline_enabled = false;
  num_peers = 3;
  per_peer = peer_at;
  peer_slot_by_rank = some (λ r. if r == 0 then negsuc 0 else pos (r - 1));
}

abbrev with_flags : Efa
with_flags = record (new_efa false efa_config) { staging_cursor = 1000 }

abbrev write_to : (lane rank tile : ℕ) → TransferCmd
write_to lane rank tile = record zero_cmd {
  cmd_type = CmdType.write;
  lane_id = lane;
  dst_rank = rank;
  tile_id = tile;
  bytes = 262144;
}

abbrev barrier_cmd : TransferCmd
barrier_cmd = record zero_cmd { cmd_type = CmdType.barrier_notify }

-- A send queue of 512 requests and a limit of 120 commands for each QP.
limit_is : with_flags.effective_max_inflight ≡ 240
unfolding new_efa efa_normalized efa_qp_cap int_product
limit_is = refl

-- A batch of two lanes and one QP.
abbrev two_writes : List TransferCmd
two_writes = write_to 2 1 40 ∷ write_to 4 1 44 ∷ []

requests_of_two : id_sum (batch_requests (peer_at 0) 7 with_flags two_writes).0 ≡ 2
unfolding id_sum batch_requests remote_flag_batch flag_loop cmd_requests queue_requests in_order
    new_efa efa_normalized efa_data efa_word logical_queue stage
requests_of_two = refl

batch_requests-id_sum_example :
    id_sum (batch_requests (peer_at 0) 7 with_flags two_writes).0 ≡ length two_writes
batch_requests-id_sum_example = batch_requests-id_sum (peer_at 0) 7 with_flags two_writes

drain_all-arrivals_example :
    let value : Completion = record { done_id = 0; is_recv_imm = true; imm_data = 5 } in
    let s : Efa = new_efa true efa_config in
    ((complete_one value s).arrivals 5 ≡ s.cfg.epoch)
    × ((drain_all (value ∷ []) s).inflight ≡ (complete_all (value ∷ []) s).inflight)
    × ((drain_all (value ∷ []) s).arrivals ≡ s.arrivals)
unfolding new_efa efa_normalized
drain_all-arrivals_example =
    drain_all-arrivals (new_efa true efa_config)
      (record { done_id = 0; is_recv_imm = true; imm_data = 5 }) [] refl refl (omega arith)

-- What the ring has: a write, a barrier, and a write for the same QP and peer.
abbrev around_barrier : List (Option TransferCmd)
around_barrier = some (write_to 2 1 40) ∷ some barrier_cmd ∷ some (write_to 4 1 44) ∷ none ∷ []

barrier-overtaken_example :
    let r : EfaCollected = efa_collect (λ _. true) (pos 3) around_barrier with_flags in
    (more : List TransferCmd) × (r.batch ≡ write_to 2 1 40 ∷ write_to 4 1 44 ∷ more)
    × (r.state.has_pending_barrier ≡ true)
    × (r.state.posted ≡ with_flags.posted)
unfolding new_efa efa_normalized efa_qp_cap kind map_to_local_qp int_product
barrier-overtaken_example =
    barrier-overtaken (λ _. true) 3 with_flags (write_to 2 1 40) barrier_cmd (write_to 4 1 44) refl
      refl refl refl (omega arith) (omega arith) (omega arith) (none ∷ []) refl refl

-- A batch that was refused in call 0; call 1 is refused too, and call 2 is accepted.
abbrev after_refusal : Efa
after_refusal = record with_flags { pending_batch = two_writes; calls = 1 }

turns-post_kept_example :
    PostedKept after_refusal
      (turns (λ k. k == 2) ([] ∷ []) after_refusal)
      (turns (λ k. k == 2) ([] ∷ (around_barrier ∷ [])) after_refusal)
turns-post_kept_example =
    turns-post_kept (λ k. k == 2) ([] ∷ []) around_barrier after_refusal (omega arith)
      (λ j low. ground arith) refl

post-refused-places_example :
    let t : Efa = (post_efa_batch (λ _. false) 0 two_writes with_flags).1 in
    (t.posted ≡ with_flags.posted)
    × (t.pending_batch ≡ two_writes)
    × (t.sender_seq 4
        ≡ u32 (
            with_flags.sender_seq 4
            + on_queue
                (u32 (with_flags.cfg.global_num_qps * with_flags.cfg.logical_queues_per_qp))
                4
                two_writes))
unfolding new_efa efa_normalized
post-refused-places_example =
    post-refused-places (λ _. false) 0 4 (write_to 2 1 40) (write_to 4 1 44 ∷ []) with_flags refl
      refl (omega arith) refl

-- With a command in flight and no completion, a drain waits: nothing is posted, and the barrier
-- stays due.
drain_that_waits :
    let s : Efa = record with_flags { inflight = pos 1 } in
    ((drain_and_notify (λ _. true) s).posted ≡ [])
    × ((drain_and_notify (λ _. true) s).has_pending_barrier ≡ true)
unfolding new_efa efa_normalized drain_and_notify efa_drain drain_loop is_busy
drain_that_waits = (refl, refl)
