-- ===== src/Proxy/Loop/Posting.antt =====
-- What each operation posts, it counts.
use m_kernel.Prelude.{
  ℕ, zero, suc, ◌+◌, List, [], ◌∷◌, Bool, true, ◌≡◌, if_both, ap, arith, if◌then◌else◌, ◌++◌, ◌∙◌,
  sym, ◌<◌, ◌^◌, Bool-cases, ◌-◌, ◌≤◌, inl, ◌*◌, inr, ◌/◌,
}
use m_kernel.Prelude.Int.{ℤ, pos, negsuc, sub_ℕ}
use mathlib.Core.Path.{subst}
use native.Mathlib.Nat.{le-div_iff_mul-le, mul-le-mul_right, mul-div-le}
use m_kernel.Proxy.{Proxy, ProxyConfig, Post, plus, minus, post_send, add_inflight}
use m_kernel.Proxy.WrId.{decode_wr_count, decode-encode_wr_id}
use m_kernel.Proxy.Ledger.{
  Owed, posts_count, chain_count, plus-sub_ℕ, minus-sub_ℕ, posts_count-append, signaled_count,
}
use m_kernel.Proxy.Loop.Still.{Still}
use m_kernel.Proxy.Barrier.{
  post_stage_barrier, barrier_loop, barrier_wr, barrier_qp, barrier_iters, barrier_channelize,
}
use m_kernel.Proxy.Loop.{retire}
use m_kernel.Proxy.Kept.{counted-Kept}
use m_kernel.Proxy.Kept.{post_send-Kept}

plus-plus : (z : ℤ) (a b : ℕ) → plus (plus z a) b ≡ plus z (a + b)
unfolding plus
plus-plus (pos n) a b = ap pos (omega arith)
plus-plus (negsuc n) a b = ground arith

minus-plus : (z : ℤ) (a b : ℕ) → plus (minus z b) a ≡ minus (plus z a) b
unfolding plus minus
minus-plus (pos n) a b = ground arith
minus-plus (negsuc n) a b = ground arith

pub Still-Owed : {s t : Proxy} {k : ℕ} → Still s t → Owed s k → Owed t k
Still-Owed {s} {t} {k} st h = record {
  accounts =
      ap (λ z. plus z k) st.same_inflight
      ∙ h.accounts
      ∙ ap (λ (ps : List Post). sub_ℕ (posts_count ps) s.retired) (sym st.same_posted)
      ∙ ap (λ r. sub_ℕ (posts_count t.posted) r) (sym st.same_retired);
}

-- Counting what is owed.
pub counting-Owed : {s : Proxy} (c k : ℕ) → Owed s (c + k) → Owed (add_inflight s c) k
counting-Owed {s} c k h = record { accounts = plus-plus s.inflight c k ∙ h.accounts }

-- The state after an accepted post.
abbrev pub with_post : Proxy → Post → Proxy
with_post s p = record s { calls = suc s.calls; posted = s.posted ++ (p ∷ []) }

pub posting-Owed :
    {s : Proxy} {k : ℕ} (p : Post)
    → Owed s k
    → Owed
        (record s { calls = suc s.calls; posted = s.posted ++ (p ∷ []) })
        (chain_count p.chain + k)
unfolding posts_count
posting-Owed {s} {k} p h = record {
  accounts =
      ap (plus s.inflight) (omega arith)
      ∙ sym (plus-plus s.inflight k (chain_count p.chain))
      ∙ ap (λ z. plus z (chain_count p.chain)) h.accounts
      ∙ plus-sub_ℕ (posts_count s.posted) s.retired (chain_count p.chain)
      ∙ ap (λ n. sub_ℕ n s.retired) (omega (arith, posts_count-append s.posted (p ∷ [])));
}

-- After a post whose count the caller adds at once, no more is owed than before.
pub counted-Owed :
    (accept : ℕ → Bool) (s : Proxy) (p : Post) {c k : ℕ}
    → chain_count p.chain ≡ c
    → Owed s k
    → Owed
        (if (post_send accept s p).0
          then add_inflight (post_send accept s p).1 c
          else (post_send accept s p).1)
        k
unfolding post_send
counted-Owed accept s p {c} {k} e h =
    if_both (λ (r : Bool × Proxy). Owed (if r.0 then add_inflight r.1 c else r.1) k)
      (accept s.calls)
      (counting-Owed c k (subst (λ x. Owed (with_post s p) (x + k)) e (posting-Owed p h)))
      (record { accounts = h.accounts })

pub retire-Owed : (wr_ids : List ℕ) (s : Proxy) {k : ℕ} → Owed s k → Owed (retire wr_ids s) k
unfolding retire
retire-Owed [] s h = h
retire-Owed (wr_id ∷ wr_ids) s {k} h = retire-Owed wr_ids _ (record {
  accounts =
      minus-plus s.inflight k (decode_wr_count wr_id)
      ∙ ap (λ z. minus z (decode_wr_count wr_id)) h.accounts
      ∙ minus-sub_ℕ (posts_count s.posted) s.retired (decode_wr_count wr_id);
})

block-lt : (p n_peers qps : ℕ) → p < n_peers → n_peers ≤ qps → p * (qps / n_peers) < qps
block-lt p n_peers qps h k = omega (
  arith,
  (le-div_iff_mul-le {k = n_peers} {x = 1} {y = qps} (omega arith)).1 (omega arith),
  mul-le-mul_right {m = suc p} {n = n_peers} (qps / n_peers) h,
  mul-div-le qps n_peers,
)

barrier_channelize-enough :
    (cfg : ProxyConfig) → barrier_channelize cfg ≡ true → cfg.num_nodes - 1 ≤ cfg.num_qps
unfolding barrier_channelize
barrier_channelize-enough cfg e = ground arith

-- The first QP of a peer's block is one of the proxy's.
pub barrier_qp-own :
    (cfg : ProxyConfig) (p : ℕ)
    → 0 < cfg.num_qps
    → p < barrier_iters cfg
    → barrier_qp cfg p < cfg.num_qps
unfolding barrier_qp barrier_iters
barrier_qp-own cfg p h k = elim (Bool-cases (barrier_channelize cfg)) [
  | inl e ↦
      rw e
        (block-lt p (cfg.num_nodes - 1) cfg.num_qps (rw e at k) (barrier_channelize-enough cfg e))
  | inr e ↦ rw e h
]

barrier_wr-count :
    (token_at : ℕ) (cfg : ProxyConfig) (slot p : ℕ)
    → barrier_qp cfg p < 2 ^ 31
    → chain_count (barrier_wr token_at cfg slot p ∷ []) ≡ 1
unfolding chain_count signaled_count barrier_wr
barrier_wr-count token_at cfg slot p h =
    omega (arith, (decode-encode_wr_id (barrier_qp cfg p) 1 h (omega arith)).1)

-- What the counter's proofs need of a configuration.
pub record Sized (cfg : ProxyConfig) : Type 0 where
  pub some_qp : 0 < cfg.num_qps
  pub qps_fit : cfg.num_qps < 2 ^ 31

barrier_loop-Owed :
    (accept : ℕ → Bool) (token_at slot left p : ℕ) (s : Proxy) {k : ℕ}
    → Sized s.cfg
    → p + left ≤ barrier_iters s.cfg
    → Owed s k
    → Owed (barrier_loop accept token_at slot left p s) k
unfolding barrier_loop
barrier_loop-Owed accept token_at slot zero p s z room h = h
barrier_loop-Owed accept token_at slot (suc left) p s {k} z room h =
    let post : Post = record {
      on_qp = barrier_qp s.cfg p;
      chain = barrier_wr token_at s.cfg slot p ∷ [];
    } in
    let t : Proxy =
      (if (post_send accept s post).0
        then add_inflight (post_send accept s post).1 1
        else (post_send accept s post).1) in
    let same : t.cfg ≡ s.cfg =
      (counted-Kept (post_send accept s post).0 1 (post_send-Kept accept s post)).same_cfg in
    let qp : barrier_qp s.cfg p < s.cfg.num_qps = barrier_qp-own s.cfg p z.some_qp (omega arith) in
    barrier_loop-Owed accept token_at slot left (p + 1) t (subst Sized (sym same) z)
      (omega (arith, ap barrier_iters same))
      (counted-Owed accept s post
        (barrier_wr-count token_at s.cfg slot p (omega (arith, z.qps_fit))) h)

pub post_stage_barrier-Owed :
    (accept : ℕ → Bool) (token_at slot token : ℕ) (s : Proxy) {k : ℕ}
    → Sized s.cfg
    → Owed s k
    → Owed (post_stage_barrier accept token_at slot token s) k
unfolding post_stage_barrier
post_stage_barrier-Owed accept token_at slot token s z h =
    barrier_loop-Owed accept token_at slot (barrier_iters s.cfg) 0
      (record s { barrier_token = token }) z (omega arith) (record { accounts = h.accounts })
