-- ===== src/Efa/Drain/Arrivals.antt =====
-- What draining does to the state, against a turn's completions.
use m_kernel.Prelude.{
  List, arith, ◌∷◌, ◌≡◌, Bool-cases, [], if_both, true, ◌∙◌, refl, ◌&&◌, ◌<◌, ap, inl, inr,
}
use m_kernel.Efa.Drain.{drain_all, drain_loop, drain_one, efa_drain, complete_all, complete_one}
use m_kernel.Efa.{Completion, Efa}
use m_kernel.Efa.Post.Still.{frame, Frame}
use m_kernel.Proxy.Loop.{is_busy}

drain_one-frame : (c : Completion) (s : Efa) → frame (drain_one c s) ≡ frame s
unfolding drain_one
drain_one-frame c s = if_both (λ t. frame t ≡ frame s) (s.write_imm && c.is_recv_imm) refl refl

drain_all-frame : (cs : List Completion) (s : Efa) → frame (drain_all cs s) ≡ frame s
unfolding drain_all
drain_all-frame [] s = refl
drain_all-frame (c ∷ cs) s = drain_all-frame cs (drain_one c s) ∙ drain_one-frame c s

drain_loop-frame :
    (polls : List (List Completion)) (s : Efa) → frame (drain_loop polls s).0 ≡ frame s
unfolding drain_loop
drain_loop-frame [] s = refl
drain_loop-frame (cs ∷ polls) s = elim (Bool-cases (is_busy s.inflight)) [
  | inl e ↦ rw (drain_loop, e) (drain_loop-frame polls (drain_all cs s) ∙ drain_all-frame cs s)
  | inr e ↦ rw (drain_loop, e) refl
]

pub efa_drain-frame : (s : Efa) → frame (efa_drain s) ≡ frame s
unfolding efa_drain
efa_drain-frame s = drain_loop-frame s.cq s

-- Both count the same.
abbrev SameCount : Efa → Efa → Type 0
SameCount s t = (t.inflight ≡ s.inflight) × (t.write_imm ≡ s.write_imm)

one-SameCount :
    (c : Completion) (s t : Efa) → SameCount s t → SameCount (complete_one c s) (drain_one c t)
unfolding complete_one drain_one
one-SameCount c s t same = ground arith

all-SameCount :
    (cs : List Completion) (s t : Efa)
    → SameCount s t
    → SameCount (complete_all cs s) (drain_all cs t)
unfolding complete_all drain_all
all-SameCount [] s t same = same
all-SameCount (c ∷ cs) s t same =
    all-SameCount cs (complete_one c s) (drain_one c t) (one-SameCount c s t same)

complete_one-marks :
    (c : Completion) (s : Efa)
    → s.write_imm ≡ true
    → c.is_recv_imm ≡ true
    → c.imm_data < s.cfg.local_arrival_count
    → (complete_one c s).arrivals c.imm_data ≡ s.cfg.epoch
unfolding complete_one
complete_one-marks c s imm recv low = ground arith

-- With immediate values, for a peer's value that names a local tile: a turn of the loop marks the
-- tile with the epoch when it sees the value. `drain_cq` counts the completions it polls as a turn
-- would, and marks no tile, whatever it polls: a value that it meets is lost.
pub drain_all-arrivals :
    (s : Efa) (c : Completion) (cs : List Completion)
    → s.write_imm ≡ true
    → c.is_recv_imm ≡ true
    → c.imm_data < s.cfg.local_arrival_count
    → ((complete_one c s).arrivals c.imm_data ≡ s.cfg.epoch)
      × ((drain_all (c ∷ cs) s).inflight ≡ (complete_all (c ∷ cs) s).inflight)
      × ((drain_all (c ∷ cs) s).arrivals ≡ s.arrivals)
drain_all-arrivals s c cs imm recv low = (
  complete_one-marks c s imm recv low,
  (all-SameCount (c ∷ cs) s s (refl, refl)).0,
  ap (λ (f : Frame). f.5) (drain_all-frame (c ∷ cs) s),
)
