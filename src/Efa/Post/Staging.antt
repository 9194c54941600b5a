-- ===== src/Efa/Post/Staging.antt =====
-- What the NIC reads for the flag and tail writes of a batch: each request has its own slot of the
-- staging memory.
use m_kernel.Prelude.{refl, ℕ, ◌<◌, ◌≤◌, ◌%◌, ◌+◌, ◌≡◌, ◌*◌, true}
use m_kernel.Efa.{EfaConfig, Peer, Efa}
use m_kernel.Types.{TransferCmd}
use m_kernel.Efa.Post.{CmdRequests, queue_requests, cmd_requests}
use m_kernel.Efa.Post.Carried.{Carried}

pub cmd_requests-queue :
    (peer : Peer) (qpn total : ℕ) (s : Efa) (cmd : TransferCmd)
    → s.cfg.use_arrival_queue ≡ true
    → cmd_requests peer qpn total s cmd ≡ queue_requests peer qpn total s cmd
unfolding cmd_requests
cmd_requests-queue peer qpn total s cmd e = rw e refl

-- What a whole loop leaves as it was, and that it claims at most two slots for each command.
record Loops (cfg : EfaConfig) (s u : Efa) (n : ℕ) : Type 0 where
  loops_not_back : s.staging_cursor ≤ u.staging_cursor
  loops_at_most : u.staging_cursor ≤ s.staging_cursor + 2 * n
  loops_kept :
      (x : ℕ)
      → x < s.staging_cursor
      → s.staging_cursor + 2 * n ≤ x + cfg.staging_count
      → u.staging (x % cfg.staging_count) ≡ s.staging (x % cfg.staging_count)

abbrev OneCarried : EfaConfig → Peer → (total : ℕ) → Efa → TransferCmd → CmdRequests × Efa → Type 0
OneCarried cfg peer total s cmd p =
    Loops cfg s p.1 1
    × (p.1.cfg ≡ cfg)
    × Carried cfg peer total s.staging_cursor p.1.staging_cursor p.1.staging cmd p.0
