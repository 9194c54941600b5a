-- ===== src/Efa/Post/Still.antt =====
-- What the barrier between nodes leaves as it was.
use m_kernel.Prelude.{ℕ, Bool, Option, ◌≡◌, if_both, suc, refl, ◌==◌, ◌+◌, ◌∙◌, zero}
use m_kernel.Efa.{Efa, EfaConfig, wr_complete, EfaPost, stage, Peer}
use m_kernel.Efa.Post.{efa_barrier_loop, barrier_to, efa_stage_barrier, barrier_post}
use m_kernel.Types.{TransferCmd}

-- The parts of the state that the collection of a batch goes by.
abbrev pub Frame : Type 0
Frame = EfaConfig × ℕ × Option TransferCmd × Bool × ℕ × (ℕ → ℕ)

abbrev pub frame : Efa → Frame
frame s = (
  s.cfg, s.effective_max_inflight, s.pending_cmd, s.has_pending_barrier, s.batch_size_current,
  s.arrivals,
)

pub wr_complete-frame :
    (accept : ℕ → Bool) (s : Efa) (post : EfaPost) → frame (wr_complete accept s post).1 ≡ frame s
unfolding wr_complete
wr_complete-frame accept s post =
    if_both (λ (p : Bool × Efa). frame p.1 ≡ frame s) (accept s.calls) refl refl

pub stage-frame : (s : Efa) (word : ℕ) → frame (stage s word) ≡ frame s
unfolding stage
stage-frame s word = refl

barrier_to-frame :
    (accept : ℕ → Bool) (slot token : ℕ) (s : Efa) (peer : Peer)
    → frame (barrier_to accept slot token s peer) ≡ frame s
unfolding barrier_to
barrier_to-frame accept slot token s peer =
    let t : Bool × Efa = wr_complete accept (stage s token) (barrier_post slot s peer) in
    let posted : frame t.1 ≡ frame s =
      wr_complete-frame accept (stage s token) (barrier_post slot s peer) ∙ stage-frame s token in
    if_both (λ u. frame u ≡ frame s) (peer.remote_barrier_addr == 0) refl
      (if_both (λ u. frame u ≡ frame s) t.0 posted posted)

efa_barrier_loop-frame :
    (accept : ℕ → Bool) (slot token left p : ℕ) (s : Efa)
    → frame (efa_barrier_loop accept slot token left p s) ≡ frame s
unfolding efa_barrier_loop
efa_barrier_loop-frame accept slot token zero p s = refl
efa_barrier_loop-frame accept slot token (suc left) p s =
    efa_barrier_loop-frame accept slot token left (p + 1)
      (barrier_to accept slot token s (s.cfg.per_peer p))
    ∙ barrier_to-frame accept slot token s (s.cfg.per_peer p)

pub efa_stage_barrier-frame :
    (accept : ℕ → Bool) (slot token : ℕ) (s : Efa)
    → frame (efa_stage_barrier accept slot token s) ≡ frame s
unfolding efa_stage_barrier
efa_stage_barrier-frame accept slot token s =
    if_both (λ t. frame t ≡ frame s) s.cfg.has_staging
      (efa_barrier_loop-frame accept slot token s.cfg.num_peers 0 s) refl
