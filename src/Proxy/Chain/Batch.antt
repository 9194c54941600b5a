-- ===== src/Proxy/Chain/Batch.antt =====
-- The chain of a batch: only its last request is signaled, and it accounts for the whole batch.
use m_kernel.Prelude.{
  ℕ, ◌+◌, ◌==◌, List, [], ◌∷◌, true, false, ◌≡◌, length, ◌<◌, ◌^◌, arith, update, append-nil,
  if_both, refl,
}
use m_kernel.Types.{TransferCmd}
use m_kernel.Proxy.{Proxy, WorkRequest}
use m_kernel.Proxy.WrId.{encode_wr_id}
use m_kernel.Proxy.Strided.{word_wr}
use m_kernel.Proxy.Forward.{forward_notify_enabled}
use m_kernel.Proxy.Ledger.{Quiet, Signed, Quiet-Signed, Signed-chain_count, chain_count}
use m_kernel.Proxy.Chain.{data_wr, notify_wr, cmd_wrs, chain_from, build_chain}

pub Signed-two :
    {a b : WorkRequest} → a.is_signaled ≡ false → b.is_signaled ≡ true → Signed (a ∷ b ∷ []) b.wr_id
Signed-two {a} {b} h k = record {
  before = a ∷ [];
  final = b;
  parts = refl;
  quiet = (h, tt);
  signaled = k;
  names = refl;
}

Signed-three :
    {a b c : WorkRequest}
    → a.is_signaled ≡ false
    → b.is_signaled ≡ false
    → c.is_signaled ≡ true
    → Signed (a ∷ b ∷ c ∷ []) c.wr_id
Signed-three {a} {b} {c} h k l = Quiet-Signed (a ∷ []) (h, tt) (Signed-two k l)

module _ (payload_at : ℕ → ℕ) (total_logical_queues qp count : ℕ) where
  cmd_wrs-Quiet :
      (s : Proxy) (i : ℕ) (cmd : TransferCmd)
      → Quiet (cmd_wrs payload_at total_logical_queues qp count s i false cmd).0
  unfolding cmd_wrs data_wr notify_wr word_wr
  cmd_wrs-Quiet s i cmd =
      let P : List WorkRequest × Proxy → Type 0 = λ r. Quiet r.0 in
      if_both P s.cfg.use_arrival_queue
        (if_both P s.cfg.enable_remote_tail (refl, (refl, (refl, tt))) (refl, (refl, tt)))
        (if_both P (forward_notify_enabled s.cfg cmd) (refl, (refl, (refl, tt))) (refl, (refl, tt)))

  cmd_wrs-Signed :
      (s : Proxy) (i : ℕ) (cmd : TransferCmd)
      → Signed
          (cmd_wrs payload_at total_logical_queues qp count s i true cmd).0
          (encode_wr_id qp count)
  unfolding cmd_wrs data_wr notify_wr word_wr
  cmd_wrs-Signed s i cmd =
      let P : List WorkRequest × Proxy → Type 0 = λ r. Signed r.0 (encode_wr_id qp count) in
      if_both P s.cfg.use_arrival_queue
        (if_both P s.cfg.enable_remote_tail (Signed-three refl refl refl) (Signed-two refl refl))
        (if_both P (forward_notify_enabled s.cfg cmd) (Signed-three refl refl refl)
          (Signed-two refl refl))

  -- `count` is the length of the batch that `i` commands have been taken from.
  chain_from-Signed :
      (s : Proxy) (i : ℕ) (cmd : TransferCmd) (cmds : List TransferCmd)
      → i + length (cmd ∷ cmds) ≡ count
      → Signed
          (chain_from payload_at total_logical_queues qp count s i (cmd ∷ cmds)).0
          (encode_wr_id qp count)
  unfolding chain_from
  chain_from-Signed s i cmd [] e =
      rw
        (
          append-nil (cmd_wrs payload_at total_logical_queues qp count s i (i + 1 == count) cmd).0,
          last,
        )
        (cmd_wrs-Signed s i cmd)
    where
      last : (i + 1 == count) ≡ true
      last = ground arith
  chain_from-Signed s i cmd (next ∷ cmds) e =
      Quiet-Signed (cmd_wrs payload_at total_logical_queues qp count s i (i + 1 == count) cmd).0
        (rw inner (cmd_wrs-Quiet s i cmd))
        (chain_from-Signed
          (cmd_wrs payload_at total_logical_queues qp count s i (i + 1 == count) cmd).1 (i + 1) next
          cmds (omega arith))
    where
      inner : (i + 1 == count) ≡ false
      inner = ground arith

-- In the chain of a batch that is not empty only the last request is signaled, and its identifier
-- holds the QP and the number of commands in the batch, whose completion takes just that number off
-- the counter.
pub build_chain-Signed :
    (payload_at : ℕ → ℕ) (total_logical_queues qp : ℕ) (s : Proxy) (batch : List TransferCmd)
    → 0 < length batch
    → qp < 2 ^ 31
    → length batch < 2 ^ 31
    → Signed
        (build_chain payload_at total_logical_queues qp (length batch) s batch).0
        (encode_wr_id qp (length batch))
      × (chain_count (build_chain payload_at total_logical_queues qp (length batch) s batch).0
          ≡ length batch)
unfolding build_chain
build_chain-Signed payload_at tlq qp s [] pos_batch hq hc = absurd (omega arith)
build_chain-Signed payload_at tlq qp s (cmd ∷ cmds) pos_batch hq hc =
    let sg =
      chain_from-Signed payload_at tlq qp (length (cmd ∷ cmds))
        (record s { staging = update s.staging 0 s.cfg.epoch }) 0 cmd cmds (omega arith) in
    (sg, Signed-chain_count qp (length (cmd ∷ cmds)) hq hc sg)
