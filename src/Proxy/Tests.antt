-- ===== src/Proxy/Tests.antt =====
-- The proxy at concrete inputs: four QPs, of which the second proxy thread of two owns the upper two.
use m_kernel.Prelude.{
  ℕ, ◌≡◌, refl, List, [], arith, length, none, true, ◌+◌, ◌≤◌, false, ◌*◌, ◌<◌, ◌∷◌, u64, u32, ◌%◌,
  ◌-◌, ◌^◌,
}
use m_kernel.Prelude.Int.{pos, quot, remainder, int_of, negsuc}
use m_kernel.Types.{TransferCmd, CmdType, zero_cmd, ForwardNotify, peer_rank_for_slot}
use m_kernel.Proxy.{below, post_send, Proxy, ProxyConfig, Remote}
use m_kernel.Proxy.WrId.{encode_wr_id, decode_wr_local_qp, decode_wr_count, decode-encode_wr_id}
use m_kernel.Proxy.Setup.{
  new_proxy, chunks_per_qp, int_product, new_proxy-fits, wrs_per_chunk, sq_depth, normalized,
  empty_notify,
}
use m_kernel.Proxy.Route.{route_global_qp, local_qp}
use m_kernel.Proxy.Strided.{Gather, data_wrs, n_data_wrs}
use m_kernel.Proxy.Strided.Rows.{data_wrs-rows, copied, rows_copied}
use m_kernel.Proxy.Forward.{make_forward_cmd, poll_forward_notifications}
use m_kernel.Proxy.Forward.Hops.{make_forward_cmd-origin, tile_of}
use m_kernel.Proxy.Chain.{build_chain, chain_from, cmd_wrs}
use m_kernel.Proxy.Chain.Batch.{build_chain-Signed}
use m_kernel.Proxy.Ledger.{Signed, chain_count, posts_count}
use m_kernel.Proxy.Collect.{collect, collect_loop, may_take, verdict, routes}
use m_kernel.Proxy.Loop.{prefilter, post_batch, next_qp, collected, forwarded, World, turn, retire}
use m_kernel.Proxy.Loop.Balance.{Sound, turn-Sound}
use m_kernel.Proxy.Loop.Runs.{new_proxy-Known, begin, then_turn, Run-inflight}

abbrev at_peer : ℕ → Remote
at_peer base = record { addr = base; rkey = 7; addr_by_qp = λ _. 0; rkey_by_qp = λ _. 0 }

abbrev raw_cfg : ProxyConfig
raw_cfg = record {
  num_qps = 2;
  qp_base_idx = 2;
  global_num_qps = 4;
  local_data_addr = 1048576;
  local_data_lkey = 11;
  clocal_data_addr = 4194304;
  clocal_data_lkey = 12;
  direct_dmabuf_enabled = true;
  row_stride_bytes = 8192;
  max_send_sge = 30;
  remote_data = at_peer 16777216;
  staging_addr = 4096;
  staging_lkey = 13;
  remote_flags = at_peer 33554432;
  remote_tail = at_peer 67108864;
  use_arrival_queue = true;
  remote_queue_stride = 1024;
  logical_queues_per_qp = 1;
  channelize_gpu_peers = false;
  enable_remote_tail = true;
  remote_barrier = at_peer 134217728;
  enable_forward_notify = false;
  has_local_forward_notify = false;
  forward_notify_slots = 0;
  remote_forward_notify = at_peer 0;
  rank = 1;
  num_nodes = 4;
  total_chunks = 32;
  a_half_bytes = 8388608;
  epoch = 5;
  max_inflight = 128;
  device_id = 0;
}

abbrev fresh : Proxy
fresh = new_proxy raw_cfg none

-- Lanes 2 and 6 go over global QP 2, lane 3 over global QP 3.
abbrev on_lane : ℕ → TransferCmd
on_lane lane = record zero_cmd {
  cmd_type = CmdType.write;
  lane_id = lane;
  tile_id = lane;
  bytes = 65536;
}

abbrev three : List TransferCmd
three = on_lane 2 ∷ on_lane 6 ∷ on_lane 3 ∷ []

abbrev quiet_world : World
quiet_world = record {
  accept = λ _. true;
  token_at = 64;
  payload_at = λ i. 256 + i * 32;
  table = λ _. empty_notify;
  arriving = three;
  completions = [];
}

decode-encode_wr_id_example :
    (decode_wr_local_qp (encode_wr_id 3 8) ≡ 3) × (decode_wr_count (encode_wr_id 3 8) ≡ 8)
decode-encode_wr_id_example = decode-encode_wr_id 3 8 (omega arith) (omega arith)

new_proxy-fits_example :
    (1 ≤ fresh.effective_max_inflight)
    × (fresh.effective_max_inflight * wrs_per_chunk fresh.cfg
          + 64 * wrs_per_chunk fresh.cfg * fresh.cfg.num_qps
        ≤ sq_depth * fresh.cfg.num_qps)
new_proxy-fits_example = new_proxy-fits raw_cfg none (omega arith)

abbrev seventy_rows : Gather
seventy_rows = record { base = 4194304; stride = 8192; span = 512; source_key = 12; target_key = 7 }

data_wrs-rows_example :
    copied (data_wrs seventy_rows 70 30 (n_data_wrs 70 30) 0 16777216)
    ≡ rows_copied seventy_rows 0 70 16777216
data_wrs-rows_example =
    data_wrs-rows seventy_rows 70 30 16777216 (omega arith) (omega arith) (omega arith)

-- At rank 1 of 4, chunk 5 of the data of rank 0, which is in slot 2.
abbrev notice : ForwardNotify
notice = record empty_notify { tile_id = 69; local_offset = 16777216 + 4096; bytes = 65536 }

make_forward_cmd-origin_example :
    (there : ℕ) × (there + 1 < 4)
    × (peer_rank_for_slot (peer_rank_for_slot 1 4 0) 4 there ≡ peer_rank_for_slot 1 4 2)
    × ((make_forward_cmd raw_cfg notice).tile_id ≡ tile_of 3 32 there (0 + 1) 5)
    × ((make_forward_cmd raw_cfg notice).remote_offset
        ≡ u64 (((0 + 1) * 3 + there) * 8388608 + u32 (notice.local_offset % 8388608)))
make_forward_cmd-origin_example =
    make_forward_cmd-origin raw_cfg notice 2 0 5 refl (omega arith) (omega arith) (omega arith)
      (omega arith) (omega arith)

build_chain-Signed_example :
    Signed (build_chain (λ i. 256 + i * 32) 4 1 3 fresh three).0 (encode_wr_id 1 3)
    × (chain_count (build_chain (λ i. 256 + i * 32) 4 1 3 fresh three).0 ≡ 3)
build_chain-Signed_example =
    build_chain-Signed (λ i. 256 + i * 32) 4 1 fresh three (omega arith) (omega arith) (omega arith)

two_in_the_batch : length (collect (λ _. true) 64 (pos 0) three fresh).batch ≡ 2
unfolding new_proxy collect collect_loop may_take below chunks_per_qp wrs_per_chunk normalized
    int_product verdict routes local_qp route_global_qp
two_in_the_batch = refl

turn-Sound_example : Sound (turn quiet_world fresh).state
unfolding new_proxy
turn-Sound_example =
    turn-Sound quiet_world fresh (new_proxy-Known raw_cfg none (omega arith)).sound (0, refl)

-- Completions of the barrier and of the batch, over two polls.
abbrev two_polls : List (List ℕ)
two_polls = (encode_wr_id 0 1 ∷ []) ∷ (encode_wr_id 1 8 ∷ []) ∷ []

-- One turn posts the command of lane 2, from a configuration without gathers and tails.
abbrev plain_cfg : ProxyConfig
plain_cfg = record raw_cfg { direct_dmabuf_enabled = false; enable_remote_tail = false }

abbrev plain_world : World
plain_world = record quiet_world { arriving = on_lane 2 ∷ [] }

abbrev after_one : Proxy
after_one = (turn plain_world (new_proxy plain_cfg none)).state

one_turn_retires_nothing : after_one.retired ≡ 0
unfolding new_proxy turn retire int_product prefilter post_batch next_qp collected collect forwarded
    below chunks_per_qp wrs_per_chunk normalized poll_forward_notifications collect_loop may_take
    verdict routes local_qp route_global_qp build_chain chain_from cmd_wrs post_send
one_turn_retires_nothing = refl

Run-inflight_example :
    (after_one.retired ≤ posts_count after_one.posted)
    × (after_one.inflight ≡ pos (posts_count after_one.posted - after_one.retired))
Run-inflight_example =
    Run-inflight plain_cfg none after_one (omega arith)
      (then_turn plain_world begin (omega (arith, one_turn_retires_nothing)))

-- A word from 2^31 on is a negative `int`, whose quotient rounds towards zero.
negative_tiles :
    (quot (int_of (2 ^ 32 - 1)) 32 ≡ pos 0)
    × (quot (int_of (2 ^ 32 - 100)) 32 ≡ negsuc 2)
    × (remainder (int_of (2 ^ 32 - 100)) 32 ≡ negsuc 3)
unfolding quot remainder
negative_tiles = (refl, refl, refl)
