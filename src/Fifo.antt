-- ===== src/Fifo.antt =====
-- include/comm/internode/d2h_fifo.cuh: the ring of commands from the GPU's threads to one proxy
-- thread. Here stand its memory and the two ends' code; the modules below prove what they do
-- together.
mod Words
pub mod System
pub mod Invariant
pub mod Create
pub mod Delivery
pub mod Drain
pub mod Bundle
mod Tests
use m_kernel.Prelude.{
  ℕ, zero, suc, ◌+◌, ◌-◌, ◌^◌, bit_and, u64, update, leb, if◌then◌else◌, Bool, true, false, Option,
  none, some, List, [], ◌∷◌,
}
use m_kernel.Types.{CmdType, TransferCmd, is_empty, zero_cmd}

-- `D2HFifoDevice` and `D2HFifoHost` share `triggers` and `tail`; `head` and `tail_cache` are the
-- device's, `cpu_head` is the proxy's.
pub record Fifo : Type 0 where
  pub triggers : ℕ → TransferCmd
  pub head : ℕ  -- uint64_t
  pub tail : ℕ  -- uint64_t
  pub tail_cache : ℕ  -- uint64_t
  pub capacity : ℕ
  pub cpu_head : ℕ  -- uint64_t

-- `slot & mask`, with `mask = capacity - 1`
unfoldable pub slot_index : ℕ → ℕ → ℕ
slot_index capacity slot = bit_and slot (capacity - 1)

-- The number of 8-byte words in a command, `kCmdWords`.
abbrev pub cmd_words : ℕ
cmd_words = 6

-- The store of word `wi` of `src` over that word of `dst`.
unfoldable pub put_word : ℕ → TransferCmd → TransferCmd → TransferCmd
put_word zero src dst = record dst {
  cmd_type = src.cmd_type;
  dst_rank = src.dst_rank;
  lane_id = src.lane_id;
  tile_id = src.tile_id;
}
put_word (suc zero) src dst = record dst { remote_offset = src.remote_offset }
put_word (suc (suc zero)) src dst = record dst { local_offset = src.local_offset }
put_word (suc (suc (suc zero))) src dst = record dst {
  bytes = src.bytes;
  src_view = src.src_view;
  reserved0 = src.reserved0;
  row_span = src.row_span;
}
put_word (suc (suc (suc (suc zero)))) src dst = record dst { row_count = src.row_count }
put_word (suc (suc (suc (suc (suc zero))))) src dst = record dst {
  enqueue_device_ns = src.enqueue_device_ns;
}
put_word _ src dst = dst

abbrev pub store_word : Fifo → ℕ → TransferCmd → ℕ → Fifo
store_word f slot cmd wi =
    let idx : ℕ = slot_index f.capacity slot in
    record f { triggers = update f.triggers idx (put_word wi cmd (f.triggers idx)) }

-- `D2HFifoHost::poll`
unfoldable pub poll : Fifo → Option TransferCmd × Fifo
poll f =
    let idx : ℕ = slot_index f.capacity f.cpu_head in
    let cmd : TransferCmd = f.triggers idx in
    if is_empty cmd.cmd_type then (none, f) else (
      some cmd,
      record f {
        triggers = update f.triggers idx (record cmd { cmd_type = CmdType.empty });
        cpu_head = u64 (f.cpu_head + 1);
      },
    )

-- The loop of `count_ready`, with `ready` counted and `left` still allowed.
unfoldable pub count_from : Fifo → ℕ → ℕ → ℕ
count_from f ready zero = ready
count_from f ready (suc left) =
    let rest = count_from f (ready + 1) left in
    if is_empty (f.triggers (slot_index f.capacity (u64 (f.cpu_head + ready)))).cmd_type
    then ready
    else rest

-- `D2HFifoHost::count_ready`; a limit below 1 counts nothing.
unfoldable pub count_ready : Fifo → ℕ → ℕ
unfolding count_from
count_ready f limit = count_from f 0 limit

-- `D2HFifoHost::advance_tail`
abbrev pub advance_tail : Fifo → ℕ → Fifo
advance_tail f new_tail = record f { tail = new_tail }

-- `create_d2h_fifo`: zeroed memory, or exit on a capacity that is no power of two.
unfoldable pub create_d2h_fifo : ℕ → Option Fifo
create_d2h_fifo capacity =
    if leb capacity 0
    then none
    else if leb 1 (bit_and capacity (capacity - 1))
    then none
    else some (record {
      triggers = λ _. zero_cmd;
      head = 0;
      tail = 0;
      tail_cache = 0;
      capacity = capacity;
      cpu_head = 0;
    })
