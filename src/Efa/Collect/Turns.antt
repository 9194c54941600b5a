-- ===== src/Efa/Collect/Turns.antt =====
-- Each loop of the collection keeps its promise.
use m_kernel.Prelude.{
  ℕ, Bool, List, ◌≡◌, Option, ◌∙◌, [], none, some, ◌++◌, ◌∷◌, refl, true, Bool-cases, ltb, length,
  inl, inr, ◌&&◌, ◌<◌, arith, suc, length-append, ◌+◌, zero, false,
}
use m_kernel.Efa.Collect.{
  drain_and_notify, kind, barrier, transfer, polled_one, has_room, seed_loop, Kind, joins,
  joined_qp, spin_loop, other,
}
use m_kernel.Efa.{Efa, EfaConfig, miss_budget}
use m_kernel.Efa.Post.Still.{frame, efa_stage_barrier-frame}
use m_kernel.Efa.Collect.Spec.{EfaStart, EfaOutcome, transfers-barrier, transfers-other}
use m_kernel.Types.{TransferCmd}
use m_kernel.Efa.Drain.{efa_drain, still_waits}
use m_kernel.Efa.Drain.Arrivals.{efa_drain-frame}
use m_kernel.Prelude.Int.{pos}
use mathlib.Core.Path.{subst}
use m_kernel.Efa.Collect.Ends.{
  after_none, barrier_waits, stop, after_other, stays, after_transfer, grown, put_by,
}

-- When the drain is through, the barrier leaves the frame as it was.
drain_and_notify-frame :
    (accept : ℕ → Bool) (s : Efa)
    → still_waits s ≡ false
    → frame (drain_and_notify accept s) ≡ frame s
unfolding drain_and_notify
drain_and_notify-frame accept s through =
    rw (drain_and_notify, through)
      (efa_stage_barrier-frame accept 0 s.cfg.epoch (efa_drain s) ∙ efa_drain-frame s)

joined_qp-same :
    (cfg : EfaConfig) (batch : List TransferCmd) (qp : ℕ) (cmd : TransferCmd)
    → 0 < length batch
    → joined_qp cfg batch qp cmd ≡ qp
joined_qp-same cfg [] qp cmd h = absurd (omega arith)
joined_qp-same cfg (first ∷ batch) qp cmd h = refl

and-right : (a b : Bool) → (a && b) ≡ true → b ≡ true
and-right a b h = ground arith

module _ (accept : ℕ → Bool) (cfg : EfaConfig) (cap_of limit n : ℕ) where
  -- A drain that waits ends the loop where it stands.
  drain_waits :
      (s : Efa) (batch : List TransferCmd) (qp : ℕ) (ps : List (Option TransferCmd))
      → still_waits s ≡ true
      → EfaStart cfg cap_of limit n s batch qp
      → EfaOutcome cfg cap_of limit n batch ps
          (record { state = drain_and_notify accept s; batch = batch; batch_qp = qp; polls = ps })
  unfolding drain_and_notify
  drain_waits s batch qp ps waits st =
      let drained : EfaStart cfg cap_of limit n (efa_drain s) batch qp =
        stays accept cfg cap_of limit n (efa_drain-frame s) st in
      rw (drain_and_notify, waits)
        (stop accept cfg cap_of limit n (record (efa_drain s) { has_pending_barrier = true }) batch
          qp ps
          (record {
            fit = drained.fit;
            nothing_aside = drained.nothing_aside;
            same_cfg = drained.same_cfg;
            same_limit = drained.same_limit;
            same_cap = drained.same_cap;
          }))

  -- One command of the first loop, which goes on by `go`.
  seed_turn :
      (cmd : TransferCmd) (ps : List (Option TransferCmd)) (s : Efa) (batch : List TransferCmd)
      (qp : ℕ)
      → ((t : Efa) (b : List TransferCmd) (q : ℕ)
          → EfaStart cfg cap_of limit n t b q
          → EfaOutcome cfg cap_of limit n b ps (seed_loop accept (pos n) ps t b q))
      → EfaStart cfg cap_of limit n s batch qp
      → has_room accept (pos n) s batch ≡ true
      → (k : Kind) → kind cmd ≡ k
      → EfaOutcome cfg cap_of limit n batch
          (some cmd ∷ ps)
          (seed_loop accept (pos n) (some cmd ∷ ps) s batch qp)
  unfolding seed_loop
  seed_turn cmd ps s batch qp go st room barrier is = elim (Bool-cases (ltb 0 (length batch))) [
    | inl some_in ↦
        rw (seed_loop, room, is, some_in)
          (barrier_waits accept cfg cap_of limit n s batch qp cmd ps is st)
    | inr empty_yet ↦ elim (Bool-cases (still_waits (polled_one s))) [
      | inl waits ↦
          rw (seed_loop, room, is, empty_yet, waits)
            (after_other accept cfg cap_of limit n cmd (λ qs. transfers-barrier cmd qs is)
              (drain_waits (polled_one s) batch qp ps waits
                (stays accept cfg cap_of limit n refl st)))
      | inr through ↦
          rw (seed_loop, room, is, empty_yet, through)
            (after_other accept cfg cap_of limit n cmd (λ qs. transfers-barrier cmd qs is)
              (go (drain_and_notify accept (polled_one s)) batch qp (
                stays accept cfg cap_of limit n
                  (drain_and_notify-frame accept (polled_one s) through) st)))
    ]
  ]
  seed_turn cmd ps s batch qp go st room other is =
      rw (seed_loop, room, is)
        (after_other accept cfg cap_of limit n cmd (λ qs. transfers-other cmd qs is)
          (go (polled_one s) batch qp (stays accept cfg cap_of limit n refl st)))
  seed_turn cmd ps s batch qp go st room transfer is =
      elim (Bool-cases (joins s.cfg batch qp cmd)) [
        | inl join ↦
            rw (seed_loop, room, is, join)
              (after_transfer accept cfg cap_of limit n cmd is (
                go (polled_one s) (batch ++ (cmd ∷ [])) (joined_qp s.cfg batch qp cmd)
                  (grown accept cfg cap_of limit n s batch qp cmd st room join)))
        | inr apart ↦
            rw (seed_loop, room, is, apart)
              (put_by accept cfg cap_of limit n s batch qp cmd ps is st)
      ]

  -- One poll of the first loop.
  seed_poll :
      (p : Option TransferCmd) (ps : List (Option TransferCmd)) (s : Efa) (batch : List TransferCmd)
      (qp : ℕ)
      → ((t : Efa) (b : List TransferCmd) (q : ℕ)
          → EfaStart cfg cap_of limit n t b q
          → EfaOutcome cfg cap_of limit n b ps (seed_loop accept (pos n) ps t b q))
      → EfaStart cfg cap_of limit n s batch qp
      → has_room accept (pos n) s batch ≡ true
      → EfaOutcome cfg cap_of limit n batch (p ∷ ps) (seed_loop accept (pos n) (p ∷ ps) s batch qp)
  unfolding seed_loop
  seed_poll none ps s batch qp go st room =
      rw (seed_loop, room)
        (after_none accept cfg cap_of limit n (stop accept cfg cap_of limit n s batch qp ps st))
  seed_poll (some cmd) ps s batch qp go st room =
      seed_turn cmd ps s batch qp go st room (kind cmd) refl

  pub seed_loop-Outcome :
      (ps : List (Option TransferCmd)) (s : Efa) (batch : List TransferCmd) (qp : ℕ)
      → EfaStart cfg cap_of limit n s batch qp
      → EfaOutcome cfg cap_of limit n batch ps (seed_loop accept (pos n) ps s batch qp)
  unfolding seed_loop
  seed_loop-Outcome [] s batch qp st = stop accept cfg cap_of limit n s batch qp [] st
  seed_loop-Outcome (p ∷ ps) s batch qp st = elim (Bool-cases (has_room accept (pos n) s batch)) [
    | inl room ↦ seed_poll p ps s batch qp (seed_loop-Outcome ps) st room
    | inr full ↦ rw (seed_loop, full) (stop accept cfg cap_of limit n s batch qp (p ∷ ps) st)
  ]

  -- The second loop, whose batch is not empty.
  spin_turn :
      (cmd : TransferCmd) (ps : List (Option TransferCmd)) (spins misses : ℕ) (s : Efa)
      (batch : List TransferCmd) (qp : ℕ)
      → ((t : Efa) (b : List TransferCmd)
          → 0 < length b
          → EfaStart cfg cap_of limit n t b qp
          → EfaOutcome cfg cap_of limit n b ps (spin_loop accept (pos n) ps spins 0 t b qp))
      → 0 < length batch
      → EfaStart cfg cap_of limit n s batch qp
      → (ltb misses miss_budget && has_room accept (pos n) s batch) ≡ true
      → (k : Kind) → kind cmd ≡ k
      → EfaOutcome cfg cap_of limit n batch
          (some cmd ∷ ps)
          (spin_loop accept (pos n) (some cmd ∷ ps) (suc spins) misses s batch qp)
  unfolding spin_loop
  spin_turn cmd ps spins misses s batch qp go some_in st may barrier is =
      rw (spin_loop, may, is) (barrier_waits accept cfg cap_of limit n s batch qp cmd ps is st)
  spin_turn cmd ps spins misses s batch qp go some_in st may other is =
      rw (spin_loop, may, is)
        (after_other accept cfg cap_of limit n cmd (λ qs. transfers-other cmd qs is)
          (go (polled_one s) batch some_in (stays accept cfg cap_of limit n refl st)))
  spin_turn cmd ps spins misses s batch qp go some_in st may transfer is =
      elim (Bool-cases (joins s.cfg batch qp cmd)) [
        | inl join ↦
            rw (spin_loop, may, is, join)
              (after_transfer accept cfg cap_of limit n cmd is (
                go (polled_one s) (batch ++ (cmd ∷ []))
                  (omega (arith, length-append batch (cmd ∷ [])))
                  (subst (λ q. EfaStart cfg cap_of limit n (polled_one s) (batch ++ (cmd ∷ [])) q)
                    (joined_qp-same s.cfg batch qp cmd some_in)
                    (grown accept cfg cap_of limit n s batch qp cmd st (and-right _ _ may) join))))
        | inr apart ↦
            rw (spin_loop, may, is, apart)
              (put_by accept cfg cap_of limit n s batch qp cmd ps is st)
      ]

  pub spin_loop-Outcome :
      (ps : List (Option TransferCmd)) (spins misses : ℕ) (s : Efa) (batch : List TransferCmd)
      (qp : ℕ)
      → 0 < length batch
      → EfaStart cfg cap_of limit n s batch qp
      → EfaOutcome cfg cap_of limit n batch ps (spin_loop accept (pos n) ps spins misses s batch qp)
  unfolding spin_loop
  spin_loop-Outcome [] spins misses s batch qp some_in st =
      stop accept cfg cap_of limit n s batch qp [] st
  spin_loop-Outcome (p ∷ ps) zero misses s batch qp some_in st =
      stop accept cfg cap_of limit n s batch qp (p ∷ ps) st
  spin_loop-Outcome (none ∷ ps) (suc spins) misses s batch qp some_in st =
      elim (Bool-cases (ltb misses miss_budget && has_room accept (pos n) s batch)) [
        | inl may ↦
            rw (spin_loop, may)
              (after_none accept cfg cap_of limit n
                (spin_loop-Outcome ps spins (misses + 1) s batch qp some_in st))
        | inr full ↦ rw (spin_loop, full) (stop accept cfg cap_of limit n s batch qp (none ∷ ps) st)
      ]
  spin_loop-Outcome (some cmd ∷ ps) (suc spins) misses s batch qp some_in st =
      elim (Bool-cases (ltb misses miss_budget && has_room accept (pos n) s batch)) [
        | inl may ↦
            spin_turn cmd ps spins misses s batch qp
              (λ t b h. spin_loop-Outcome ps spins 0 t b qp h) some_in st may (kind cmd) refl
        | inr full ↦
            rw (spin_loop, full) (stop accept cfg cap_of limit n s batch qp (some cmd ∷ ps) st)
      ]
