-- ===== src/Proxy/Kept.antt =====
-- What posting leaves alone, and that a barrier leaves it alone.
use m_kernel.Prelude.{ℕ, zero, suc, ◌+◌, Bool, [], ◌∷◌, ◌≡◌, if_both, if◌then◌else◌, refl, ◌∙◌}
use m_kernel.Proxy.{Proxy, Post, post_send, add_inflight}
use m_kernel.Proxy.Barrier.{post_stage_barrier, barrier_loop, barrier_iters, barrier_qp, barrier_wr}

-- What posting leaves alone.
pub record Kept (s t : Proxy) : Type 0 where
  pub same_cfg : t.cfg ≡ s.cfg
  pub same_limit : t.effective_max_inflight ≡ s.effective_max_inflight
  pub same_pending : t.pending ≡ s.pending
  pub same_rr : t.qp_rr_idx ≡ s.qp_rr_idx

pub Kept-refl : (s : Proxy) → Kept s s
Kept-refl s = record { same_cfg = refl; same_limit = refl; same_pending = refl; same_rr = refl }

pub Kept-trans : {s t u : Proxy} → Kept s t → Kept t u → Kept s u
Kept-trans a b = record {
  same_cfg = b.same_cfg ∙ a.same_cfg;
  same_limit = b.same_limit ∙ a.same_limit;
  same_pending = b.same_pending ∙ a.same_pending;
  same_rr = b.same_rr ∙ a.same_rr;
}

pub post_send-Kept : (accept : ℕ → Bool) (s : Proxy) (p : Post) → Kept s (post_send accept s p).1
unfolding post_send
post_send-Kept accept s p =
    if_both (λ (r : Bool × Proxy). Kept s r.1) (accept s.calls)
      (record { same_cfg = refl; same_limit = refl; same_pending = refl; same_rr = refl })
      (record { same_cfg = refl; same_limit = refl; same_pending = refl; same_rr = refl })

pub counted-Kept :
    {s t : Proxy} (ok : Bool) (n : ℕ) → Kept s t → Kept s (if ok then add_inflight t n else t)
counted-Kept ok n k =
    if_both (Kept _) ok
      (record {
        same_cfg = k.same_cfg;
        same_limit = k.same_limit;
        same_pending = k.same_pending;
        same_rr = k.same_rr;
      })
      k

barrier_loop-Kept :
    (accept : ℕ → Bool) (token_at slot left p : ℕ) (s : Proxy)
    → Kept s (barrier_loop accept token_at slot left p s)
unfolding barrier_loop
barrier_loop-Kept accept token_at slot zero p s = Kept-refl s
barrier_loop-Kept accept token_at slot (suc left) p s =
    let post : Post = record {
      on_qp = barrier_qp s.cfg p;
      chain = barrier_wr token_at s.cfg slot p ∷ [];
    } in
    Kept-trans (counted-Kept (post_send accept s post).0 1 (post_send-Kept accept s post)) (
      barrier_loop-Kept accept token_at slot left (p + 1) (
        if (post_send accept s post).0
        then add_inflight (post_send accept s post).1 1
        else (post_send accept s post).1))

pub post_stage_barrier-Kept :
    (accept : ℕ → Bool) (token_at slot token : ℕ) (s : Proxy)
    → Kept s (post_stage_barrier accept token_at slot token s)
unfolding post_stage_barrier
post_stage_barrier-Kept accept token_at slot token s =
    let k =
      barrier_loop-Kept accept token_at slot (barrier_iters s.cfg) 0
        (record s { barrier_token = token }) in
    record {
      same_cfg = k.same_cfg;
      same_limit = k.same_limit;
      same_pending = k.same_pending;
      same_rr = k.same_rr;
    }
