-- ===== src/Efa/Collect/Overtaken.antt =====
-- A barrier that ends the first loop of the collection does not keep the second one from running.
use m_kernel.Prelude.{
  ℕ, Bool, List, Option, [], ◌++◌, ◌∷◌, ◌≡◌, ltb, suc, sym, true, ◌∙◌, Bool-cases, append-nil,
  append_assoc, none, refl, ◌&&◌, ◌<◌, inl, some, ◌+◌, inr, zero, arith, length, ap, if_both, not,
  if◌then◌else◌,
}
use m_kernel.Efa.{Efa, miss_budget, active_fifo}
use m_kernel.Prelude.Int.{ℤ, pos}
use m_kernel.Types.{TransferCmd}
use m_kernel.Efa.Collect.{
  EfaCollected, kind, spin_loop, Kind, transfer, barrier, has_room, batch_cap, polled_one, spin_cap,
  joins, seeded, other, seed_loop, map_to_local_qp, accumulate, efa_collect, note_head, is_some,
}
use m_kernel.Proxy.{below}
use mathlib.Core.Path.{subst}
use m_kernel.Efa.Collect.Order.{seeded-none}

-- What the second loop adds to the batch; it posts nothing, and a barrier that waits goes on waiting.
record Extends (batch : List TransferCmd) (s : Efa) (r : EfaCollected) : Type 0 where
  more : List TransferCmd
  longer : r.batch ≡ batch ++ more
  nothing_posted : r.state.posted ≡ s.posted
  still_waits : s.has_pending_barrier ≡ true → r.state.has_pending_barrier ≡ true

same-Extends :
    (batch : List TransferCmd) (s : Efa) (qp : ℕ) (ps : List (Option TransferCmd))
    → Extends batch s (record { state = s; batch = batch; batch_qp = qp; polls = ps })
same-Extends batch s qp ps = record {
  more = [];
  longer = sym (append-nil batch);
  nothing_posted = refl;
  still_waits = λ h. h;
}

-- The loop after one more command.
joined-Extends :
    {batch : List TransferCmd} {s : Efa} {r : EfaCollected} (cmd : TransferCmd)
    → Extends (batch ++ (cmd ∷ [])) s r
    → Extends batch s r
joined-Extends {batch} cmd x = record {
  more = cmd ∷ x.more;
  longer = x.longer ∙ append_assoc batch (cmd ∷ []) x.more;
  nothing_posted = x.nothing_posted;
  still_waits = x.still_waits;
}

module _ (accept : ℕ → Bool) (pre : ℤ) where
  spin_cmd-Extends :
      (k : Kind) (cmd : TransferCmd) (ps : List (Option TransferCmd)) (spins misses : ℕ) (s : Efa)
      (batch : List TransferCmd) (qp : ℕ)
      → ((t : Efa) (b : List TransferCmd) → Extends b t (spin_loop accept pre ps spins 0 t b qp))
      → (ltb misses miss_budget && has_room accept pre s batch) ≡ true
      → kind cmd ≡ k
      → Extends batch s (spin_loop accept pre (some cmd ∷ ps) (suc spins) misses s batch qp)
  unfolding spin_loop
  spin_cmd-Extends barrier cmd ps spins misses s batch qp go may is =
      rw (spin_loop, may, is)
        (record {
          more = [];
          longer = sym (append-nil batch);
          nothing_posted = refl;
          still_waits = λ h. refl;
        })
  spin_cmd-Extends other cmd ps spins misses s batch qp go may is =
      let x : Extends batch (polled_one s)
          (spin_loop accept pre ps spins 0 (polled_one s) batch qp) =
        go (polled_one s) batch in
      rw (spin_loop, may, is)
        (record {
          more = x.more;
          longer = x.longer;
          nothing_posted = x.nothing_posted;
          still_waits = x.still_waits;
        })
  spin_cmd-Extends transfer cmd ps spins misses s batch qp go may is =
      elim (Bool-cases (joins s.cfg batch qp cmd)) [
        | inl join ↦
            let x : Extends batch (polled_one s)
                (spin_loop accept pre ps spins 0 (polled_one s) (batch ++ (cmd ∷ [])) qp) =
              joined-Extends cmd (go (polled_one s) (batch ++ (cmd ∷ []))) in
            rw (spin_loop, may, is, join)
              (record {
                more = x.more;
                longer = x.longer;
                nothing_posted = x.nothing_posted;
                still_waits = x.still_waits;
              })
        | inr apart ↦
            rw (spin_loop, may, is, apart)
              (record {
                more = [];
                longer = sym (append-nil batch);
                nothing_posted = refl;
                still_waits = λ h. h;
              })
      ]

  spin_loop-Extends :
      (ps : List (Option TransferCmd)) (spins misses : ℕ) (s : Efa) (batch : List TransferCmd)
      (qp : ℕ)
      → Extends batch s (spin_loop accept pre ps spins misses s batch qp)
  unfolding spin_loop
  spin_loop-Extends [] spins misses s batch qp = same-Extends batch s qp []
  spin_loop-Extends (p ∷ ps) zero misses s batch qp = same-Extends batch s qp (p ∷ ps)
  spin_loop-Extends (none ∷ ps) (suc spins) misses s batch qp =
      elim (Bool-cases (ltb misses miss_budget && has_room accept pre s batch)) [
        | inl may ↦ rw (spin_loop, may) (spin_loop-Extends ps spins (misses + 1) s batch qp)
        | inr full ↦ rw (spin_loop, full) (same-Extends batch s qp (none ∷ ps))
      ]
  spin_loop-Extends (some cmd ∷ ps) (suc spins) misses s batch qp =
      elim (Bool-cases (ltb misses miss_budget && has_room accept pre s batch)) [
        | inl may ↦
            spin_cmd-Extends (kind cmd) cmd ps spins misses s batch qp
              (λ t b. spin_loop-Extends ps spins 0 t b qp) may refl
        | inr full ↦ rw (spin_loop, full) (same-Extends batch s qp (some cmd ∷ ps))
      ]

module _ (accept : ℕ → Bool) (n : ℕ) (s : Efa) (a b c : TransferCmd) (a_is : kind a ≡ transfer)
    (b_is : kind b ≡ barrier) (c_is : kind c ≡ transfer) (clear : s.pending_cmd ≡ none)
    (cap_left : 1 < batch_cap s) (spins_left : 0 < spin_cap s)
    (room_left : n + 1 < s.effective_max_inflight) where
  waiting_one : Efa
  waiting_one = record (polled_one (polled_one s)) { has_pending_barrier = true }

  noted : Efa
  noted = record waiting_one { pending_cpu_head = waiting_one.cpu_heads (active_fifo waiting_one) }

  room_first : has_room accept (pos n) s [] ≡ true
  unfolding has_room below
  room_first = ground arith

  room_second : has_room accept (pos n) (polled_one s) (a ∷ []) ≡ true
  unfolding has_room below
  room_second = ground arith

  qp_of : ℕ
  qp_of = map_to_local_qp s.cfg a

  seeds-one :
      (ps : List (Option TransferCmd))
      → seed_loop accept (pos n) (some a ∷ some b ∷ ps) s [] 0
        ≡ record { state = waiting_one; batch = a ∷ []; batch_qp = qp_of; polls = ps }
  unfolding seed_loop joins waiting_one qp_of
  seeds-one ps = rw (seed_loop, room_first, a_is) (rw (seed_loop, room_second, b_is) refl)

  third_joins :
      map_to_local_qp s.cfg c ≡ map_to_local_qp s.cfg a
      → c.dst_rank ≡ a.dst_rank
      → joins s.cfg (a ∷ []) qp_of c ≡ true
  unfolding joins qp_of
  third_joins same_qp same_rank = ground arith

  room_third : (ltb 0 miss_budget && has_room accept (pos n) noted (a ∷ [])) ≡ true
  unfolding has_room below noted waiting_one
  room_third = ground arith

  spins-on :
      (ps : List (Option TransferCmd)) (spins : ℕ)
      → map_to_local_qp s.cfg c ≡ map_to_local_qp s.cfg a
      → c.dst_rank ≡ a.dst_rank
      → 0 < spins
      → Extends
          (a ∷ c ∷ [])
          noted
          (spin_loop accept (pos n) (some c ∷ ps) spins 0 noted (a ∷ []) qp_of)
  unfolding spin_loop noted waiting_one
  spins-on ps zero same_qp same_rank h = absurd (omega arith)
  spins-on ps (suc spins) same_qp same_rank h =
      rw (spin_loop, room_third, c_is, third_joins same_qp same_rank)
        (record {
          more = (later spins).more;
          longer = (later spins).longer;
          nothing_posted = (later spins).nothing_posted;
          still_waits = (later spins).still_waits;
        })
    where
      later :
          (k : ℕ)
          → Extends
              (a ∷ c ∷ [])
              (polled_one noted)
              (spin_loop accept (pos n) ps k 0 (polled_one noted) (a ∷ c ∷ []) qp_of)
      later k = spin_loop-Extends accept (pos n) ps k 0 (polled_one noted) (a ∷ c ∷ []) qp_of

  first_part : List (Option TransferCmd) → EfaCollected
  first_part ps = record { state = noted; batch = a ∷ []; batch_qp = qp_of; polls = ps }

  noted-part :
      (ps : List (Option TransferCmd))
      → note_head accept (pos n) (seeded accept (pos n) (some a ∷ some b ∷ ps) s) ≡ first_part ps
  unfolding note_head first_part noted
  noted-part ps =
      ap (note_head accept (pos n))
        (seeded-none accept n s (some a ∷ some b ∷ ps) clear ∙ seeds-one ps)

  goes_on :
      (ltb 0 (length (a ∷ []))
        && ltb (length (a ∷ [])) (batch_cap noted)
        && not (is_some noted.pending_cmd))
      ≡ true
  unfolding noted waiting_one
  goes_on = ground arith

  note_head-Extends :
      (r : EfaCollected)
      → Extends (a ∷ c ∷ []) noted r
      → Extends (a ∷ c ∷ []) noted (note_head accept (pos n) r)
  unfolding note_head
  note_head-Extends r x =
      if_both (Extends (a ∷ c ∷ []) noted) (ltb 0 (length r.batch))
        (record {
          more = x.more;
          longer = x.longer;
          nothing_posted = x.nothing_posted;
          still_waits = x.still_waits;
        })
        x

  accumulates :
      (ps : List (Option TransferCmd))
      → accumulate accept (pos n) (first_part ps)
        ≡ note_head accept
            (pos n)
            (spin_loop accept (pos n) ps (spin_cap noted) 0 noted (a ∷ []) qp_of)
  unfolding accumulate first_part
  accumulates ps =
      ap
        (λ (t : Bool).
          if t
          then note_head accept (pos n)
              (spin_loop accept (pos n) ps (spin_cap noted) 0 noted (a ∷ []) qp_of)
          else first_part ps)
        goes_on

  cap_noted : 0 < spin_cap noted
  unfolding noted waiting_one
  cap_noted = spins_left

  -- With `n` commands in flight, nothing put aside, room for two commands and a round of the second
  -- loop: when the ring has a transfer, a barrier, and behind the barrier a transfer for the same
  -- QP and peer, the collection takes both transfers into one batch, and the barrier still waits
  -- with nothing posted.
  pub barrier-overtaken :
      (ps : List (Option TransferCmd))
      → map_to_local_qp s.cfg c ≡ map_to_local_qp s.cfg a
      → c.dst_rank ≡ a.dst_rank
      → let r : EfaCollected = efa_collect accept (pos n) (some a ∷ some b ∷ some c ∷ ps) s in
        (more : List TransferCmd) × (r.batch ≡ a ∷ c ∷ more)
        × (r.state.has_pending_barrier ≡ true)
        × (r.state.posted ≡ s.posted)
  unfolding efa_collect noted waiting_one
  barrier-overtaken ps same_qp same_rank =
      let x : Extends (a ∷ c ∷ []) noted
          (efa_collect accept (pos n) (some a ∷ some b ∷ some c ∷ ps) s) =
        subst (Extends (a ∷ c ∷ []) noted)
          (sym
            (ap (accumulate accept (pos n)) (noted-part (some c ∷ ps)) ∙ accumulates (some c ∷ ps)))
          (note_head-Extends _ (spins-on ps (spin_cap noted) same_qp same_rank cap_noted)) in
      (x.more, x.longer, x.still_waits refl, x.nothing_posted)
