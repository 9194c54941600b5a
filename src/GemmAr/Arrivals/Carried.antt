-- ===== src/GemmAr/Arrivals/Carried.antt =====
-- What a peer makes of the word that a group of chunks leaves in its arrival queue.
use m_kernel.Proxy.Strided.{run_tiles}
use m_kernel.Prelude.{ℕ}
use m_kernel.Types.{TransferCmd, pack_arrival_work}

-- The word that both proxies write for a command, in the queue layout.
abbrev pub arrival_word : TransferCmd → ℕ
arrival_word cmd = pack_arrival_work cmd.tile_id (run_tiles cmd.bytes)
