-- ===== src/Efa/Collect/Both.antt =====
-- The two loops of the collection one after the other.
use m_kernel.Prelude.{
  ℕ, Bool, List, Option, ◌≡◌, false, none, if_both, ltb, some, ◌++◌, length, refl, ◌∙◌, ap, ◌&&◌,
  ◌<◌, sym, append_assoc, not, true, arith, if_known, append-nil,
}
use m_kernel.Efa.{EfaConfig}
use m_kernel.Efa.Collect.{accumulate, note_head, EfaCollected, is_some, batch_cap, spin_cap}
use m_kernel.Types.{TransferCmd}
use m_kernel.Efa.Collect.Spec.{EfaOutcome, put_aside, transfers-append, transfers}
use m_kernel.Prelude.Int.{pos}
use m_kernel.Efa.Collect.Turns.{spin_loop-Outcome}

module _ (accept : ℕ → Bool) (cfg : EfaConfig) (cap_of limit n : ℕ) where
  -- A second loop goes on where a first one has ended.
  pub both_loops :
      {b0 : List TransferCmd} {ps : List (Option TransferCmd)} {c r : EfaCollected}
      → c.state.pending_cmd ≡ none
      → EfaOutcome cfg cap_of limit n b0 ps c
      → EfaOutcome cfg cap_of limit n c.batch c.polls r
      → EfaOutcome cfg cap_of limit n b0 ps r
  both_loops {b0} {ps} {c} {r} clear o q = record {
    taken = o.taken ++ q.taken;
    prefix =
        o.prefix ∙ ap (λ l. o.taken ++ l) q.prefix ∙ sym (append_assoc o.taken q.taken r.polls);
    order =
        ap (λ l. b0 ++ l) (transfers-append o.taken q.taken)
        ∙ sym (append_assoc b0 (transfers o.taken) (transfers q.taken))
        ∙ ap (λ l. l ++ transfers q.taken)
            (o.order ∙ ap (λ p. c.batch ++ put_aside p) clear ∙ append-nil c.batch)
        ∙ q.order;
    fit = q.fit;
    same_cfg = q.same_cfg;
    same_limit = q.same_limit;
    same_cap = q.same_cap;
  }

  pub note_head-Outcome :
      {b0 : List TransferCmd} {ps : List (Option TransferCmd)} {c : EfaCollected}
      → EfaOutcome cfg cap_of limit n b0 ps c
      → EfaOutcome cfg cap_of limit n b0 ps (note_head accept (pos n) c)
  unfolding note_head
  note_head-Outcome {b0} {ps} {c} o =
      if_both (λ r. EfaOutcome cfg cap_of limit n b0 ps r) (ltb 0 (length c.batch))
        (record {
          taken = o.taken;
          prefix = o.prefix;
          order = o.order;
          fit = o.fit;
          same_cfg = o.same_cfg;
          same_limit = o.same_limit;
          same_cap = o.same_cap;
        })
        o

  is_some-not : (p : Option TransferCmd) → is_some p ≡ false → p ≡ none
  is_some-not none h = refl
  is_some-not (some cmd) h = absurd (cc)

  pub accumulate-Outcome :
      {b0 : List TransferCmd} {ps : List (Option TransferCmd)} {c : EfaCollected}
      → EfaOutcome cfg cap_of limit n b0 ps c
      → EfaOutcome cfg cap_of limit n b0 ps (accumulate accept (pos n) c)
  unfolding accumulate
  accumulate-Outcome {b0} {ps} {c} o =
      if_known (λ r. EfaOutcome cfg cap_of limit n b0 ps r)
        (ltb 0 (length c.batch)
          && ltb (length c.batch) (batch_cap c.state)
          && not (is_some c.state.pending_cmd))
        (λ goes. note_head-Outcome (
          both_loops (clear goes) o (
            spin_loop-Outcome accept cfg cap_of limit n c.polls (spin_cap c.state) 0 c.state c.batch
              c.batch_qp (filled goes)
              (record {
                fit = o.fit;
                nothing_aside = clear goes;
                same_cfg = o.same_cfg;
                same_limit = o.same_limit;
                same_cap = o.same_cap;
              }))))
        (λ _. o)
    where
      clear :
          (ltb 0 (length c.batch)
              && ltb (length c.batch) (batch_cap c.state)
              && not (is_some c.state.pending_cmd))
            ≡ true
          → c.state.pending_cmd ≡ none
      clear goes = is_some-not c.state.pending_cmd (ground arith)

      filled :
          (ltb 0 (length c.batch)
              && ltb (length c.batch) (batch_cap c.state)
              && not (is_some c.state.pending_cmd))
            ≡ true
          → 0 < length c.batch
      filled goes = ground arith
