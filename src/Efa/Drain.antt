-- ===== src/Efa/Drain.antt =====
-- Completions at the EFA proxy: those of a turn, and `drain_cq`.
use m_kernel.Prelude.{true, false, Bool}
pub mod Arrivals
use m_kernel.Prelude.{List, if◌then◌else◌, ◌∷◌, [], ◌&&◌, ltb, true, update}
use m_kernel.Efa.{Completion, Efa}
use m_kernel.Proxy.Loop.{is_busy}
use m_kernel.Proxy.{minus}

-- A completion in the loop of `run`. An immediate value from a peer marks its tile as arrived, if
-- the tile is one of the local ones, and is nothing in flight.
unfoldable pub complete_one : Completion → Efa → Efa
complete_one c s =
    if s.write_imm && c.is_recv_imm
    then (if ltb c.imm_data s.cfg.local_arrival_count
        then record s { arrivals = update s.arrivals c.imm_data s.cfg.epoch }
        else s)
    else record s { inflight = minus s.inflight c.done_id }

unfoldable pub complete_all : List Completion → Efa → Efa
complete_all [] s = s
complete_all (c ∷ cs) s = complete_all cs (complete_one c s)

-- A completion in `drain_cq`: an immediate value from a peer is passed over.
unfoldable pub drain_one : Completion → Efa → Efa
drain_one c s =
    if s.write_imm && c.is_recv_imm then s else record s { inflight = minus s.inflight c.done_id }

unfoldable pub drain_all : List Completion → Efa → Efa
drain_all [] s = s
drain_all (c ∷ cs) s = drain_all cs (drain_one c s)

-- The loop of `drain_cq`, for the polls of the completion queue that are to come: the state, and the
-- polls that were not needed. At the end of the polls the loop may still be waiting, which is told
-- by what is in flight in the state.
unfoldable pub drain_loop : List (List Completion) → Efa → Efa × List (List Completion)
drain_loop [] s = (s, [])
drain_loop (cs ∷ polls) s = elim (is_busy s.inflight) [
  | true ↦ drain_loop polls (drain_all cs s)
  | false ↦ (s, cs ∷ polls)
]

-- `drain_cq`, as far as the polls of the completion queue go
unfoldable pub efa_drain : Efa → Efa
efa_drain s = let (t, polls) = drain_loop s.cq s in record t { cq = polls }

-- The drain still waits for completions.
abbrev pub still_waits : Efa → Bool
still_waits s = is_busy (efa_drain s).inflight
