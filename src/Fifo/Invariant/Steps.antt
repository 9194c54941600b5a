-- ===== src/Fifo/Invariant/Steps.antt =====
-- Every step of the system keeps the invariant, while fewer than 2^64 commands are pushed.
use m_kernel.Prelude.{◌+◌, ◌^◌, ◌<◌, ◌≡◌, arith}
use m_kernel.Fifo.{poll, Fifo}
use m_kernel.Fifo.System.{Step, System, claim, move, release, advance, polls}
use m_kernel.Fifo.Invariant.Defs.{Inv}
use m_kernel.Fifo.Invariant.Threads.{claim-Inv, move-Inv, release-Inv}
use m_kernel.Fifo.Invariant.Polls.{advance-Inv, got-Inv, poll-Inv}
use m_kernel.Fifo.Invariant.Moves.{Move-Effect}

-- While the pushes and the capacity stay below 2^64 together, a step keeps the invariant.
pub Step-Inv : {s t : System} → Step s t → t.pushes + s.mem.capacity < 2 ^ 64 → Inv s → Inv t
unfolding poll
Step-Inv (claim i cmd idles real) wide inv = claim-Inv inv i cmd idles real (omega arith)
Step-Inv {s} (move i mv) wide inv =
    move-Inv inv i
      (Move-Effect (omega (arith, inv.tails, inv.reads, inv.heads)) inv.cached mv (inv.fresh i))
Step-Inv (release i cmd slot e) wide inv = release-Inv inv i cmd slot e
Step-Inv polls wide inv = got-Inv (poll-Inv inv (omega arith)) _
Step-Inv (advance t h le) wide inv = advance-Inv inv t h le

pub capacity-poll : (m : Fifo) → (poll m).1.capacity ≡ m.capacity
unfolding poll
capacity-poll m = ground arith
