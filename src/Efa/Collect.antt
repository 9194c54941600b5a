-- ===== src/Efa/Collect.antt =====
-- Step 1 of the EFA proxy's loop: the batch of commands of one QP and one peer.
pub mod Spec
pub mod Ends
mod Turns
pub mod Both
pub mod Order
pub mod Overtaken
use m_kernel.Types.{CmdType}
use m_kernel.Proxy.{below}
use m_kernel.Prelude.{
  ℕ, Bool, List, if◌then◌else◌, update, Option, ltb, true, ◌+◌, ◌==◌, false, length, none, ◌%◌, ◌∷◌,
  [], some, suc, ◌&&◌, not, ◌++◌, zero,
}
use m_kernel.Types.{TransferCmd}
use m_kernel.Efa.{Efa, EfaConfig, accumulate_spins, efa_batch_size, miss_budget, active_fifo}
use m_kernel.Efa.Post.{efa_stage_barrier}
use m_kernel.Prelude.Int.{ℤ}
use m_kernel.Efa.Drain.{efa_drain, still_waits}

-- `map_to_local_qp`
unfoldable pub map_to_local_qp : EfaConfig → TransferCmd → ℕ
map_to_local_qp cfg cmd = if cfg.num_qps == 0 then 0 else cmd.lane_id % cfg.num_qps

-- What the loops do with a command that they have polled.
pub data Kind : Type 0 where
  barrier : Kind
  other : Kind
  transfer : Kind

unfoldable pub kind : TransferCmd → Kind
kind cmd = elim cmd.cmd_type [
  | CmdType.barrier_notify ↦ barrier
  | CmdType.write ↦ transfer
  | CmdType.empty ↦ other
  | CmdType.fence ↦ other
]

-- A command of this QP and rank joins the batch.
unfoldable pub joins : EfaConfig → (batch : List TransferCmd) → (batch_qp : ℕ) → TransferCmd → Bool
joins cfg [] batch_qp cmd = true
joins cfg (first ∷ batch) batch_qp cmd =
    (map_to_local_qp cfg cmd == batch_qp) && (cmd.dst_rank == first.dst_rank)

-- The QP of the batch when a command has joined.
abbrev pub joined_qp : EfaConfig → (batch : List TransferCmd) → (batch_qp : ℕ) → TransferCmd → ℕ
joined_qp cfg [] batch_qp cmd = map_to_local_qp cfg cmd
joined_qp cfg (_ ∷ _) batch_qp cmd = batch_qp

-- A poll of the active ring that has found a command.
abbrev pub polled_one : Efa → Efa
polled_one s = record s {
  cpu_heads = update s.cpu_heads (active_fifo s) (s.cpu_heads (active_fifo s) + 1);
}

-- The barrier between nodes, after all that is in flight. As long as the drain waits the barrier is
-- not posted and stays due, so that the drain goes on at the next turn.
unfoldable pub drain_and_notify : (accept : ℕ → Bool) → Efa → Efa
drain_and_notify accept s = elim (still_waits s) [
  | true ↦ record (efa_drain s) { has_pending_barrier = true }
  | false ↦ efa_stage_barrier accept 0 s.cfg.epoch (efa_drain s)
]

-- The end of the collection; `polls` is what the ring would still return.
pub record EfaCollected : Type 0 where
  pub state : Efa
  pub batch : List TransferCmd
  pub batch_qp : ℕ
  pub polls : List (Option TransferCmd)

abbrev pub batch_cap : Efa → ℕ
batch_cap s = if s.cfg.pipeline_enabled then s.batch_size_current else efa_batch_size

abbrev pub spin_cap : Efa → ℕ
spin_cap s = if s.cfg.pipeline_enabled then s.accum_spins_current else accumulate_spins

abbrev pub is_some : Option TransferCmd → Bool
is_some none = false
is_some (some _) = true

module _ (accept : ℕ → Bool) (pre_inflight : ℤ) where
  -- The tests on the size of the batch.
  unfoldable pub has_room : Efa → List TransferCmd → Bool
  has_room s batch =
      ltb (length batch) (batch_cap s) && below pre_inflight (length batch) s.effective_max_inflight

  -- The first loop: it ends with the first poll that finds nothing.
  unfoldable pub seed_loop : List (Option TransferCmd) → Efa → List TransferCmd → ℕ → EfaCollected
  seed_loop [] s batch qp = record { state = s; batch = batch; batch_qp = qp; polls = [] }
  seed_loop (p ∷ ps) s batch qp = elim (has_room s batch) [
    | false ↦ record { state = s; batch = batch; batch_qp = qp; polls = p ∷ ps }
    | true ↦ elim p [
      | none ↦ record { state = s; batch = batch; batch_qp = qp; polls = ps }
      | some cmd ↦ elim (kind cmd) [
        | barrier ↦ elim (ltb 0 (length batch)) [
          | true ↦ record {
            state = record (polled_one s) { has_pending_barrier = true };
            batch = batch;
            batch_qp = qp;
            polls = ps;
          }
          | false ↦ elim (still_waits (polled_one s)) [
            | true ↦ record {
              state = drain_and_notify accept (polled_one s);
              batch = batch;
              batch_qp = qp;
              polls = ps;
            }
            | false ↦ seed_loop ps (drain_and_notify accept (polled_one s)) batch qp
          ]
        ]
        | other ↦ seed_loop ps (polled_one s) batch qp
        | transfer ↦ elim (joins s.cfg batch qp cmd) [
          | true ↦ seed_loop ps (polled_one s) (batch ++ (cmd ∷ [])) (joined_qp s.cfg batch qp cmd)
          | false ↦ record {
            state = record (polled_one s) { pending_cmd = some cmd };
            batch = batch;
            batch_qp = qp;
            polls = ps;
          }
        ]
      ]
    ]
  ]

  -- The second loop, with `spins` rounds to go and `misses` empty polls in a row.
  unfoldable pub spin_loop :
      List (Option TransferCmd) → (spins misses : ℕ) → Efa → List TransferCmd → ℕ → EfaCollected
  spin_loop [] spins misses s batch qp = record {
    state = s;
    batch = batch;
    batch_qp = qp;
    polls = [];
  }
  spin_loop (p ∷ ps) zero misses s batch qp = record {
    state = s;
    batch = batch;
    batch_qp = qp;
    polls = p ∷ ps;
  }
  spin_loop (p ∷ ps) (suc spins) misses s batch qp =
      elim (ltb misses miss_budget && has_room s batch) [
        | false ↦ record { state = s; batch = batch; batch_qp = qp; polls = p ∷ ps }
        | true ↦ elim p [
          | none ↦ spin_loop ps spins (misses + 1) s batch qp
          | some cmd ↦ elim (kind cmd) [
            | barrier ↦ record {
              state = record (polled_one s) { has_pending_barrier = true };
              batch = batch;
              batch_qp = qp;
              polls = ps;
            }
            | other ↦ spin_loop ps spins 0 (polled_one s) batch qp
            | transfer ↦ elim (joins s.cfg batch qp cmd) [
              | true ↦ spin_loop ps spins 0 (polled_one s) (batch ++ (cmd ∷ [])) qp
              | false ↦ record {
                state = record (polled_one s) { pending_cmd = some cmd };
                batch = batch;
                batch_qp = qp;
                polls = ps;
              }
            ]
          ]
        ]
      ]

  -- `pending_cpu_head = fifo()->cpu_head`, if there is a batch
  unfoldable pub note_head : EfaCollected → EfaCollected
  note_head c =
      if ltb 0 (length c.batch)
      then record c {
        state = record c.state { pending_cpu_head = c.state.cpu_heads (active_fifo c.state) };
      }
      else c

  unfoldable pub accumulate : EfaCollected → EfaCollected
  accumulate c =
      if ltb 0 (length c.batch)
        && ltb (length c.batch) (batch_cap c.state)
        && not (is_some c.state.pending_cmd)
      then note_head (spin_loop c.polls (spin_cap c.state) 0 c.state c.batch c.batch_qp)
      else c

  -- The seed of the batch: the command put aside, if there is room for it.
  unfoldable pub seeded : List (Option TransferCmd) → Efa → EfaCollected
  seeded polls s = elim s.pending_cmd [
    | none ↦ seed_loop polls s [] 0
    | some cmd ↦ elim (below pre_inflight 0 s.effective_max_inflight) [
      | true ↦
          seed_loop polls (record s { pending_cmd = none }) (cmd ∷ []) (map_to_local_qp s.cfg cmd)
      | false ↦ seed_loop polls s [] 0
    ]
  ]

  unfoldable pub efa_collect : List (Option TransferCmd) → Efa → EfaCollected
  efa_collect polls s = accumulate (note_head (seeded polls s))
