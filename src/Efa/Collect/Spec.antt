-- ===== src/Efa/Collect/Spec.antt =====
-- What the collection of the EFA proxy promises: the commands of a ring, cut into batches.
use m_kernel.Prelude.{
  refl, ℕ, List, Option, All, [], length, ◌∷◌, some, ◌<◌, ◌≡◌, ◌≤◌, none, ◌++◌, ◌+◌, All-append,
  true, arith, length-append, ◌∙◌, ap, sym,
}
use m_kernel.Types.{TransferCmd}
use m_kernel.Efa.Collect.{
  transfer, barrier, other, joins, EfaCollected, kind, barrier, batch_cap, map_to_local_qp,
  joined_qp, other, Kind,
}
use m_kernel.Efa.{EfaConfig, Efa}

-- The transfers among what the polls found, in their order.
unfoldable pub transfers : List (Option TransferCmd) → List TransferCmd
transfers [] = []
transfers (none ∷ ps) = transfers ps
transfers (some cmd ∷ ps) = elim (kind cmd) [
  | barrier ↦ transfers ps
  | other ↦ transfers ps
  | transfer ↦ cmd ∷ transfers ps
]

-- A batch for the QP `qp` and one peer, within its bounds.
abbrev pub OnePeer : List TransferCmd → Type 0
OnePeer [] = Unit {0}
OnePeer (first ∷ batch) = All (λ cmd. cmd.dst_rank ≡ first.dst_rank) batch

pub record EfaFit (cfg : EfaConfig) (cap_of limit n : ℕ) (batch : List TransferCmd) (qp : ℕ)
    : Type 0 where
  pub short : length batch ≤ cap_of
  pub room : 0 < length batch → n + length batch ≤ limit
  pub one_qp : All (λ cmd. map_to_local_qp cfg cmd ≡ qp) batch
  pub one_peer : OnePeer batch

abbrev pub put_aside : Option TransferCmd → List TransferCmd
put_aside none = []
put_aside (some cmd) = cmd ∷ []

-- The end of a collection from the polls `ps` that began with `batch`.
pub record EfaOutcome (cfg : EfaConfig) (cap_of limit n : ℕ) (batch : List TransferCmd)
    (ps : List (Option TransferCmd)) (r : EfaCollected) : Type 0 where
  pub taken : List (Option TransferCmd)
  pub prefix : ps ≡ taken ++ r.polls
  pub order : batch ++ transfers taken ≡ r.batch ++ put_aside r.state.pending_cmd
  pub fit : EfaFit cfg cap_of limit n r.batch r.batch_qp
  pub same_cfg : r.state.cfg ≡ cfg
  pub same_limit : r.state.effective_max_inflight ≡ limit
  pub same_cap : batch_cap r.state ≡ cap_of

-- Where a loop begins: nothing is put aside.
pub record EfaStart (cfg : EfaConfig) (cap_of limit n : ℕ) (s : Efa) (batch : List TransferCmd)
    (qp : ℕ) : Type 0 where
  pub fit : EfaFit cfg cap_of limit n batch qp
  pub nothing_aside : s.pending_cmd ≡ none
  pub same_cfg : s.cfg ≡ cfg
  pub same_limit : s.effective_max_inflight ≡ limit
  pub same_cap : batch_cap s ≡ cap_of

All-snoc-eq :
    (qp : ℕ) (f : TransferCmd → ℕ) (batch : List TransferCmd) (cmd : TransferCmd)
    → All (λ c. f c ≡ qp) batch
    → f cmd ≡ qp
    → All (λ c. f c ≡ qp) (batch ++ (cmd ∷ []))
All-snoc-eq qp f batch cmd h e = All-append (λ c. f c ≡ qp) batch (cmd ∷ []) h (e, tt)

-- A command that joins keeps the batch within its bounds.
pub join-Fit :
    (cfg : EfaConfig) (cap_of limit n : ℕ) (batch : List TransferCmd) (qp : ℕ) (cmd : TransferCmd)
    → EfaFit cfg cap_of limit n batch qp
    → length batch < cap_of
    → n + length batch < limit
    → joins cfg batch qp cmd ≡ true
    → EfaFit cfg cap_of limit n (batch ++ (cmd ∷ [])) (joined_qp cfg batch qp cmd)
unfolding joins
join-Fit cfg cap_of limit n [] qp cmd fit short room join = record {
  short = omega arith;
  room = λ h. omega arith;
  one_qp = (refl, tt);
  one_peer = tt;
}
join-Fit cfg cap_of limit n (first ∷ batch) qp cmd fit short room join =
    let same_qp : map_to_local_qp cfg cmd ≡ qp = ground arith in
    let same_rank : cmd.dst_rank ≡ first.dst_rank = ground arith in
    record {
      short = omega (arith, length-append batch (cmd ∷ []));
      room = λ h. omega (arith, length-append batch (cmd ∷ []));
      one_qp = All-snoc-eq qp (map_to_local_qp cfg) (first ∷ batch) cmd fit.one_qp same_qp;
      one_peer = All-snoc-eq first.dst_rank (λ c. c.dst_rank) batch cmd fit.one_peer same_rank;
    }

pub transfers-one :
    (cmd : TransferCmd) (ps : List (Option TransferCmd))
    → kind cmd ≡ transfer
    → transfers (some cmd ∷ ps) ≡ cmd ∷ transfers ps
unfolding transfers
transfers-one cmd ps e = rw (transfers, e) refl

pub transfers-barrier :
    (cmd : TransferCmd) (ps : List (Option TransferCmd))
    → kind cmd ≡ barrier
    → transfers (some cmd ∷ ps) ≡ transfers ps
unfolding transfers
transfers-barrier cmd ps e = rw (transfers, e) refl

pub transfers-other :
    (cmd : TransferCmd) (ps : List (Option TransferCmd))
    → kind cmd ≡ other
    → transfers (some cmd ∷ ps) ≡ transfers ps
unfolding transfers
transfers-other cmd ps e = rw (transfers, e) refl

append_cmd :
    (k : Kind) (cmd : TransferCmd) (ps qs : List (Option TransferCmd))
    → kind cmd ≡ k
    → transfers (ps ++ qs) ≡ transfers ps ++ transfers qs
    → transfers (some cmd ∷ (ps ++ qs)) ≡ transfers (some cmd ∷ ps) ++ transfers qs
append_cmd barrier cmd ps qs is h =
    transfers-barrier cmd (ps ++ qs) is
    ∙ h
    ∙ ap (λ l. l ++ transfers qs) (sym (transfers-barrier cmd ps is))
append_cmd other cmd ps qs is h =
    transfers-other cmd (ps ++ qs) is
    ∙ h
    ∙ ap (λ l. l ++ transfers qs) (sym (transfers-other cmd ps is))
append_cmd transfer cmd ps qs is h =
    transfers-one cmd (ps ++ qs) is
    ∙ ap (λ l. cmd ∷ l) h
    ∙ ap (λ l. l ++ transfers qs) (sym (transfers-one cmd ps is))

pub transfers-append :
    (ps qs : List (Option TransferCmd)) → transfers (ps ++ qs) ≡ transfers ps ++ transfers qs
unfolding transfers
transfers-append [] qs = refl
transfers-append (none ∷ ps) qs = transfers-append ps qs
transfers-append (some cmd ∷ ps) qs = append_cmd (kind cmd) cmd ps qs refl (transfers-append ps qs)
