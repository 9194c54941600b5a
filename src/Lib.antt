-- ===== src/Lib.antt =====
-- The inter-node communication of mKernel: GPU kernels that overlap matrix products with transfers
-- between nodes, and the CPU proxy threads that post those transfers.
--
-- A GPU thread fills in a TransferCmd and pushes it into a ring in host memory; the proxy thread
-- polls the ring and posts RDMA writes for what it finds.
--
-- Files and the code that they model, with paths from the repository's root:
-- * Types (include/comm/internode/types.h): `CmdType`, `TransferCmd`, `ForwardNotify`, the packed
--   arrival word, and the maps between peer slots and ranks.
-- * Fifo (include/comm/internode/d2h_fifo.cuh): the ring. `D2HFifoHost::poll`, `count_ready`,
--   `advance_tail` and `create_d2h_fifo` are functions on the record `Fifo`; `D2HFifoDevice::push` is
--   a program of one shared access at a time for any number of threads, `Fifo.System.Step`, whose
--   steps interleave with those of the proxy. `Fifo.Invariant` has what every step keeps.
-- * Fifo.Bundle (the same file): `make_fifo_bundle`, `resolve_fifo_bundle` and
--   `gemm_ar_select_fifo_for_lane`.
-- * Proxy (include/comm/internode/proxy.h): `ProxyConfig` and the thread's state. Setup has the
--   constructor; WrId and Route have `encode_wr_id`, `route_global_qp` and the peer's addresses;
--   Barrier has `post_stage_barrier`, Strided `post_strided_direct`, Forward the store and forward of
--   notifications, Collect the collection of a batch in both layouts, Chain the chain of a batch, and
--   Loop one turn of `run` and `drain_cq`. Ledger, Kept and the modules below Loop have the account of
--   what is in flight. What the turn meets from outside is one record, `Loop.World`: the answers of
--   `ibv_post_send`, the commands that successive polls of the ring return, and the completions.
--   `drain_cq` is given what the polls of the completion queue find, and is `none` where it is still
--   waiting at their end. The
--   C++ loops over the batch are structural recursions; the scan for notifications is cut at 256
--   slots by the code itself.
-- * Efa (include/comm/internode/proxy_efa.h): the proxy for EFA. Setup has the constructor, Post the
--   requests of the barrier and of a batch in both notify modes, Drain the completions of a turn and
--   `drain_cq`, Collect the collection of a batch, and Loop a turn of `run`. A turn is given what the
--   polls of its ring find, an empty poll included; the completion queue is a list of what its polls
--   return. Where the drain before a barrier still waits at the end of that list, the barrier is not
--   posted and stays due: the wait goes on in the next turn. The accumulate loop recurs on its rounds and on that list, whose end stands for
--   polls that find nothing.
-- * Broker (include/comm/local_broker.cuh): `init_sync` and `sync`, the barrier between the processes
--   of one node, as a step relation, `Broker.NodeStep`: each process does one shared access at a time,
--   and the accesses of all processes interleave. A round of a waiting loop that finds nothing is no
--   step, since it changes nothing.
-- * ReadyQueue (include/comm/internode/ready_queue.cuh): `create_ready_queue`, `ready_queue_push`,
--   `ready_queue_push_batch` and `reset_ready_queue`.
-- * GemmAr.Scratch (include/operators/gemm_ar/gemm_ar.cuh): the layout of the kernels' scratch memory,
--   `gemm_ar_compute_scratch_layout`, and the list of its regions with their sizes. There is no layout
--   (`none`) where one of its `int`s would overflow.
-- * GemmAr (include/operators/gemm_ar/gemm_ar.cuh): the order in which thread blocks visit the tiles
--   of the output, the chunks of a row (`gemm_ar_chunk_decode`, `gemm_ar_chunk_first_tile`) and the
--   share of a queue (`gemm_ar_units_for_queue`). Override is about the environment variable that only
--   the host reads.
-- * GemmAr.Arrivals (the same file): `gemm_ar_drain_arrival_queue_publish_flags` on the memory that
--   `fused_globals` points to, in the record `Arrived`; its loops recur on the tiles of an arrival and on
--   the places left in the queue. Sends (src/gemm_ar.cu) has the commands that a send block makes of a
--   group of chunks; the words that the proxies write for these commands are what the drain reads.
-- * AgGemm (include/operators/ag_gemm/ag_gemm.cuh): the commands that send a row around the ring,
--   `post_merge_wrs_for_intra_row` and `post_ring_forward_wrs_for_intra_row`, as the list of pushes,
--   and whose row arrives in which step (`ag_gemm_ring_origin_for_step`, with fuel of one more than
--   the step, which is enough since the number starts at -(step + 1) at the lowest).
--
-- Machine words are natural numbers with the wrap-around written out. Memory that is indexed by a slot
-- is a function from numbers. A release store is taken to be seen after all stores before it, and
-- the accesses that processes or threads make to shared memory are taken in one order.
--
-- Not modelled: allocation and its failure, time stamps, the calls of CUDA, libibverbs and the system,
-- and the tensor-core code.
pub mod Prelude
pub mod Types
pub mod Fifo
pub mod ReadyQueue
pub mod Proxy
pub mod GemmAr
pub mod Efa
pub mod Broker
pub mod AgGemm
