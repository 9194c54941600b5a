-- ===== src/Efa/Loop/Turns.antt =====
-- The turns after a refused post.
use m_kernel.Prelude.{
  ℕ, Bool, List, ◌<◌, ◌≡◌, Option, [], if_both, length, ◌++◌, ◌∷◌, ap, false, refl, true, ◌&&◌, ◌∙◌,
  arith, if◌then◌else◌, ltb, suc, lt→ltb, ◌+◌,
}
use m_kernel.Efa.{Efa, Completion, EfaPost, EfaConfig}
use m_kernel.Efa.Drain.{complete_all, complete_one}
use m_kernel.Efa.Loop.{
  advance_tail, barrier_due, efa_turn, finish, poll_completions, post_efa_batch, batch_requests,
  rotate_fifo,
}
use m_kernel.Efa.Collect.{EfaCollected, drain_and_notify, efa_collect}
use m_kernel.Types.{TransferCmd}
use m_kernel.Efa.Loop.Retry.{Accepted, Refused, post-Accepted, post-Refused, batch_peer}
use m_kernel.Efa.Post.Counts.{id_sum}

-- What completions and the tail leave alone.
abbrev OnWire : Type 0
OnWire = List TransferCmd × ℕ × List EfaPost × ℕ × EfaConfig

abbrev Wire : Efa → OnWire
Wire s = (s.pending_batch, s.pending_batch_qp, s.posted, s.calls, s.cfg)

complete_one-Wire : (c : Completion) (s : Efa) → Wire (complete_one c s) ≡ Wire s
unfolding complete_one
complete_one-Wire c s =
    if_both (λ t. Wire t ≡ Wire s) (s.write_imm && c.is_recv_imm)
      (if_both (λ t. Wire t ≡ Wire s) (ltb c.imm_data s.cfg.local_arrival_count) refl refl) refl

complete_all-Wire : (cs : List Completion) (s : Efa) → Wire (complete_all cs s) ≡ Wire s
unfolding complete_all
complete_all-Wire [] s = refl
complete_all-Wire (c ∷ cs) s = complete_all-Wire cs (complete_one c s) ∙ complete_one-Wire c s

poll_completions-Wire : (s : Efa) → Wire (poll_completions s) ≡ Wire s
unfolding poll_completions
poll_completions-Wire s = go s.cq
  where
    go :
        (polls : List (List Completion))
        → Wire (elim polls as (λ _. Efa) [
          | [] ↦ s
          | cs ∷ later ↦ complete_all cs (record s { cq = later })
        ])
          ≡ Wire s
    go [] = refl
    go (cs ∷ later) = complete_all-Wire cs (record s { cq = later })

advance_tail-Wire : (posted : Bool) (s : Efa) → Wire (advance_tail posted s) ≡ Wire s
unfolding advance_tail
advance_tail-Wire posted s = if_both (λ t. Wire t ≡ Wire s) posted refl refl

finish-Wire :
    (accept : ℕ → Bool) (c : EfaCollected)
    → Wire (finish accept c).state ≡ Wire (post_efa_batch accept c.batch_qp c.batch c.state).1
unfolding finish
finish-Wire accept c =
    let p : Bool × Efa = post_efa_batch accept c.batch_qp c.batch c.state in
    advance_tail-Wire p.0 (poll_completions p.1) ∙ poll_completions-Wire p.1

not_due : (s : Efa) → 0 < length s.pending_batch → barrier_due s ≡ false
unfolding barrier_due
not_due s h = ground arith

-- A turn with a batch kept from before tries that batch again, whatever the rings have.
retries :
    (accept : ℕ → Bool) (ps : List (Option TransferCmd)) (s : Efa)
    → 0 < length s.pending_batch
    → efa_turn accept ps s
      ≡ finish accept
          (record { state = s; batch = s.pending_batch; batch_qp = s.pending_batch_qp; polls = ps })
unfolding efa_turn
retries accept ps s h =
    ap
      (λ (b : Bool).
        if b
        then record {
          state = drain_and_notify accept (record s { has_pending_barrier = false });
          batch = [];
          batch_qp = 0;
          polls = ps;
        }
        else if ltb 0 (length s.pending_batch)
        then kept_batch
        else finish accept (efa_collect accept s.inflight ps (rotate_fifo s)))
      (not_due s h)
    ∙ ap
        (λ (b : Bool).
          if b
          then kept_batch
          else finish accept (efa_collect accept s.inflight ps (rotate_fifo s)))
        (lt→ltb 0 (length s.pending_batch) h)
  where
    kept_batch : EfaCollected
    kept_batch =
        finish accept
          (record { state = s; batch = s.pending_batch; batch_qp = s.pending_batch_qp; polls = ps })

-- The turns of the loop, with what the polls of each find.
unfoldable pub turns : (accept : ℕ → Bool) → List (List (Option TransferCmd)) → Efa → Efa
turns accept [] s = s
turns accept (ps ∷ rounds) s = turns accept rounds (efa_turn accept ps s).state

-- One post more than `s` has, for its kept batch, made of it in the state `u`.
pub record PostedKept (s u t : Efa) : Type 0 where
  pub post : EfaPost
  pub on_wire : t.posted ≡ s.posted ++ (post ∷ [])
  pub own_qp : post.on_qp ≡ s.pending_batch_qp
  pub made_by :
      post.requests
      ≡ (batch_requests
          (batch_peer s.cfg s.pending_batch)
          ((batch_peer s.cfg s.pending_batch).dst_qpns s.pending_batch_qp)
          u
          s.pending_batch).0
  pub same_cfg : u.cfg ≡ s.cfg
  pub counts : id_sum post.requests ≡ length s.pending_batch
  pub nothing_kept : t.pending_batch ≡ []

-- The post of a batch that is not empty.
post_some-Refused :
    (accept : ℕ → Bool) (qp : ℕ) (batch : List TransferCmd) (s : Efa)
    → 0 < length batch
    → accept s.calls ≡ false
    → Refused s qp batch (post_efa_batch accept qp batch s)
post_some-Refused accept qp [] s h no_answer = absurd (omega arith)
post_some-Refused accept qp (cmd ∷ cmds) s h no_answer = post-Refused accept qp cmd cmds s no_answer

post_some-Accepted :
    (accept : ℕ → Bool) (qp : ℕ) (batch : List TransferCmd) (s : Efa)
    → 0 < length batch
    → accept s.calls ≡ true
    → Accepted s qp batch (post_efa_batch accept qp batch s)
post_some-Accepted accept qp [] s h answer = absurd (omega arith)
post_some-Accepted accept qp (cmd ∷ cmds) s h answer = post-Accepted accept qp cmd cmds s answer

turn-Wire :
    (accept : ℕ → Bool) (ps : List (Option TransferCmd)) (s : Efa)
    → 0 < length s.pending_batch
    → Wire (efa_turn accept ps s).state
      ≡ Wire (post_efa_batch accept s.pending_batch_qp s.pending_batch s).1
turn-Wire accept ps s h =
    ap (λ (c : EfaCollected). Wire c.state) (retries accept ps s h)
    ∙ finish-Wire accept
        (record { state = s; batch = s.pending_batch; batch_qp = s.pending_batch_qp; polls = ps })

-- A refused turn leaves the batch, its QP and the wire as they were.
turn-refused :
    (accept : ℕ → Bool) (ps : List (Option TransferCmd)) (s : Efa)
    → 0 < length s.pending_batch
    → accept s.calls ≡ false
    → Wire (efa_turn accept ps s).state
      ≡ (s.pending_batch, s.pending_batch_qp, s.posted, suc s.calls, s.cfg)
turn-refused accept ps s h no_answer =
    let r : Refused s s.pending_batch_qp s.pending_batch
        (post_efa_batch accept s.pending_batch_qp s.pending_batch s) =
      post_some-Refused accept s.pending_batch_qp s.pending_batch s h no_answer in
    turn-Wire accept ps s h
    ∙ (λ i. (r.keeps_batch i, r.keeps_qp i, r.same_posted i, r.one_call i, r.same_cfg i))

turn-accepted :
    (accept : ℕ → Bool) (ps : List (Option TransferCmd)) (s : Efa)
    → 0 < length s.pending_batch
    → accept s.calls ≡ true
    → PostedKept s s (efa_turn accept ps s).state
turn-accepted accept ps s h answer =
    let a : Accepted s s.pending_batch_qp s.pending_batch
        (post_efa_batch accept s.pending_batch_qp s.pending_batch s) =
      post_some-Accepted accept s.pending_batch_qp s.pending_batch s h answer in
    let same : Wire (efa_turn accept ps s).state
        ≡ Wire (post_efa_batch accept s.pending_batch_qp s.pending_batch s).1 =
      turn-Wire accept ps s h in
    record {
      post = a.post;
      on_wire = ap (λ (w : OnWire). w.2) same ∙ a.on_wire;
      own_qp = a.own_qp;
      made_by = a.made_by;
      same_cfg = refl;
      counts = a.counts;
      nothing_kept = ap (λ (w : OnWire). w.0) same ∙ a.nothing_kept;
    }

-- A post for what `t` keeps is one for what `s` keeps, where both keep the same.
PostedKept-back :
    {s t u v : Efa}
    → Wire t ≡ (s.pending_batch, s.pending_batch_qp, s.posted, suc s.calls, s.cfg)
    → PostedKept t u v
    → PostedKept s u v
PostedKept-back {s} {t} {u} {v} same k = record {
  post = k.post;
  on_wire = k.on_wire ∙ ap (λ (w : OnWire). w.2 ++ (k.post ∷ [])) same;
  own_qp = k.own_qp ∙ ap (λ (w : OnWire). w.1) same;
  made_by =
      k.made_by
      ∙ ap
          (λ (w : OnWire).
            (batch_requests (batch_peer w.4 w.0) ((batch_peer w.4 w.0).dst_qpns w.1) u w.0).0)
          same;
  same_cfg = k.same_cfg ∙ ap (λ (w : OnWire). w.4) same;
  counts = k.counts ∙ ap (λ (w : OnWire). length w.0) same;
  nothing_kept = k.nothing_kept;
}

-- For a batch that a refused post has kept: if `ibv_wr_complete` refuses the next calls and then
-- accepts one, then after as many turns, whatever the polls of the rings find, exactly one more post
-- is on the wire than before. It goes to the QP that the batch was for. Its requests are those that
-- the state of the last turn makes of the batch, for the peer of the batch's first command in the
-- configuration, which has stayed the same, and for that peer's QP number. Their identifiers count
-- each command once, and nothing is kept.
pub turns-post_kept :
    (accept : ℕ → Bool) (rounds : List (List (Option TransferCmd))) (ps : List (Option TransferCmd))
    (s : Efa)
    → 0 < length s.pending_batch
    → ((j : ℕ) → j < length rounds → accept (s.calls + j) ≡ false)
    → accept (s.calls + length rounds) ≡ true
    → PostedKept s (turns accept rounds s) (turns accept (rounds ++ (ps ∷ [])) s)
unfolding turns
turns-post_kept accept [] ps s h refusals answer =
    turn-accepted accept ps s h (ap accept (omega arith) ∙ answer)
turns-post_kept accept (r ∷ rounds) ps s h refusals answer =
    let t : Efa = (efa_turn accept r s).state in
    let same : Wire t ≡ (s.pending_batch, s.pending_batch_qp, s.posted, suc s.calls, s.cfg) =
      turn-refused accept r s h (ap accept (omega arith) ∙ refusals 0 (omega arith)) in
    let same_batch : t.pending_batch ≡ s.pending_batch = ap (λ (w : OnWire). w.0) same in
    let next_call : t.calls ≡ suc s.calls = ap (λ (w : OnWire). w.3) same in
    PostedKept-back same (
      turns-post_kept accept rounds ps t (omega (arith, ap length same_batch))
        (λ j low. ap accept (omega (arith, next_call)) ∙ refusals (suc j) (omega arith))
        (ap accept (omega (arith, next_call)) ∙ answer))
