-- ===== src/GemmAr/Arrivals/Drains.antt =====
-- What a drain takes out of a queue, and where it stops.
use m_kernel.Prelude.{
  ℕ, Bool, suc, ◌≡◌, if_both, min, zero, ◌+◌, ◌≤◌, ltb, ◌-◌, ◌<◌, ◌*◌, ◌^◌, ◌≢◌, ◌&&◌, ◌/◌, ◌⊎◌,
  arith, leb, ◌||◌, ◌∙◌, refl, u32, ap, true, inl, sym, update_ne, update_self, inr, mod-eq_of_lt,
  false, if_known,
}
use m_kernel.GemmAr.Arrivals.{
  FusedGlobals, Arrived, queue_word, take_arrival, head_on, drain_from, mark_chunk, mark_tiles,
  popc, drain_arrival_queue,
}
use m_kernel.GemmAr.Arrivals.Published.{new_mask}
use mathlib.Core.Path.{subst}

-- The words of the queue's next `n` places, taken in order.
unfoldable pub taken : (n : ℕ) → FusedGlobals → (q : ℕ) → Arrived → Arrived
taken zero g q s = s
taken (suc n) g q s =
    taken n g q (take_arrival g (queue_word g s q (s.arrival_queue_head q)) (head_on q s))

-- What marking chunks leaves as it is.
abbrev IsAside : Arrived → Arrived → Type 0
IsAside s t =
    (t.arrival_flags ≡ s.arrival_flags)
    × (t.arrival_queue_head ≡ s.arrival_queue_head)
    × (t.queue_observed_arrivals ≡ s.queue_observed_arrivals)

mark_chunk-IsAside :
    (g : FusedGlobals) (peer chunk : ℕ) (s : Arrived) → IsAside s (mark_chunk g peer chunk s)
unfolding mark_chunk
mark_chunk-IsAside g peer chunk s =
    if_both (IsAside s)
      (ltb (popc 32 (s.remote_arrived_peer_mask chunk)) (g.num_nodes - 1)
        && leb (g.num_nodes - 1) (popc 32 (new_mask peer chunk s)))
      (refl, refl, refl) (refl, refl, refl)

mark_tiles-IsAside :
    (rounds : ℕ) (g : FusedGlobals) (peer rb col work : ℕ) (s : Arrived)
    → IsAside s (mark_tiles rounds g peer rb col work s)
unfolding mark_tiles
mark_tiles-IsAside zero g peer rb col work s = (refl, refl, refl)
mark_tiles-IsAside (suc rounds) g peer rb col work s =
    let used : ℕ = min work (min g.chunk_tiles (g.col_blocks - col)) in
    let chunk : ℕ = rb * g.chunks_per_row + col / g.chunk_tiles in
    let (flags, head, seen) =
      mark_tiles-IsAside rounds g peer rb (col + used) (work - used) (mark_chunk g peer chunk s) in
    let (flags_first, head_first, seen_first) = mark_chunk-IsAside g peer chunk s in
    if_both (IsAside s) (ltb 0 work && ltb col g.col_blocks && ltb 0 used)
      (flags ∙ flags_first, head ∙ head_first, seen ∙ seen_first) (refl, refl, refl)

take-IsAside : (g : FusedGlobals) (w : ℕ) (s : Arrived) → IsAside s (take_arrival g w s)
unfolding take_arrival
take-IsAside g w s = mark_tiles-IsAside _ g _ _ _ _ s

-- The `n` places that a drain of queue `q` from `s` has taken, with the outcome `r`.
pub record IsDrained (g : FusedGlobals) (q : ℕ) (s : Arrived) (any : Bool) (r : Bool × Arrived)
    (n : ℕ) : Type 0 where
  pub in_queue : s.arrival_queue_head q + n ≤ g.remote_queue_stride
  pub real : (j : ℕ) → j < n → queue_word g s q (s.arrival_queue_head q + j) ≢ 0
  pub stops :
      (s.arrival_queue_head q + n ≡ g.remote_queue_stride)
      ⊎ (queue_word g s q (s.arrival_queue_head q + n) ≡ 0)
  pub found : r.0 ≡ (any || ltb 0 n)
  pub effect : r.1 ≡ taken n g q s
  pub head : r.1.arrival_queue_head q ≡ s.arrival_queue_head q + n
  pub others : (p : ℕ) → q ≢ p → r.1.arrival_queue_head p ≡ s.arrival_queue_head p
  pub observed : r.1.queue_observed_arrivals q ≡ u32 (s.queue_observed_arrivals q + n)

plus_zero : (n : ℕ) → n ≡ n + 0
plus_zero n = omega arith

IsDrained-none :
    (g : FusedGlobals) (q : ℕ) (s : Arrived) (any : Bool)
    → s.arrival_queue_head q ≤ g.remote_queue_stride
    → s.queue_observed_arrivals q < 2 ^ 32
    → (s.arrival_queue_head q ≡ g.remote_queue_stride)
      ⊎ (queue_word g s q (s.arrival_queue_head q) ≡ 0)
    → IsDrained g q s any (any, s) 0
unfolding taken
IsDrained-none g q s any le word end = record {
  in_queue = omega arith;
  real = λ j low. absurd (omega arith);
  stops =
      subst (λ x. (x ≡ g.remote_queue_stride) ⊎ (queue_word g s q x ≡ 0))
        (plus_zero (s.arrival_queue_head q)) end;
  found = ground arith;
  effect = refl;
  head = omega arith;
  others = λ p ne. refl;
  observed = sym (mod-eq_of_lt (omega (arith, word)) ∙ omega arith);
}

counts_on : (o n : ℕ) → u32 (u32 (o + 1) + n) ≡ u32 (o + suc n)
counts_on o n = omega arith

-- After one arrival.
abbrev after_one : FusedGlobals → (q : ℕ) → Arrived → Arrived
after_one g q s = take_arrival g (queue_word g s q (s.arrival_queue_head q)) (head_on q s)

module _ (g : FusedGlobals) (q : ℕ) (s : Arrived) (small : g.remote_queue_stride < 2 ^ 32)
    (low : s.arrival_queue_head q < g.remote_queue_stride) where
  after-flags : (after_one g q s).arrival_flags ≡ s.arrival_flags
  after-flags = (take-IsAside g (queue_word g s q (s.arrival_queue_head q)) (head_on q s)).0

  after-head : (after_one g q s).arrival_queue_head q ≡ s.arrival_queue_head q + 1
  after-head =
      ap (λ h. h q) (take-IsAside g (queue_word g s q (s.arrival_queue_head q)) (head_on q s)).1
      ∙ update_self s.arrival_queue_head q (u32 (s.arrival_queue_head q + 1))
      ∙ mod-eq_of_lt (omega (arith, small, low))

  after-others : (p : ℕ) → q ≢ p → (after_one g q s).arrival_queue_head p ≡ s.arrival_queue_head p
  after-others p ne =
      ap (λ h. h p) (take-IsAside g (queue_word g s q (s.arrival_queue_head q)) (head_on q s)).1
      ∙ update_ne s.arrival_queue_head q p (u32 (s.arrival_queue_head q + 1)) ne

  after-observed :
      (after_one g q s).queue_observed_arrivals q ≡ u32 (s.queue_observed_arrivals q + 1)
  after-observed =
      ap (λ h. h q) (take-IsAside g (queue_word g s q (s.arrival_queue_head q)) (head_on q s)).2
      ∙ update_self s.queue_observed_arrivals q (u32 (s.queue_observed_arrivals q + 1))

  after-word :
      (j : ℕ)
      → queue_word g (after_one g q s) q ((after_one g q s).arrival_queue_head q + j)
        ≡ queue_word g s q (s.arrival_queue_head q + suc j)
  after-word j =
      ap (λ f. f (q * g.remote_queue_stride + ((after_one g q s).arrival_queue_head q + j)))
        after-flags
      ∙ ap (λ x. s.arrival_flags (q * g.remote_queue_stride + x)) (omega (arith, after-head))

  IsDrained-next :
      (any : Bool) (r : Bool × Arrived) (n : ℕ)
      → queue_word g s q (s.arrival_queue_head q) ≢ 0
      → IsDrained g q (after_one g q s) true r n
      → IsDrained g q s any r (suc n)
  unfolding taken
  IsDrained-next any r n word d = record {
    in_queue = omega (arith, d.in_queue, after-head);
    real = reals;
    stops = elim d.stops [
      | inl full ↦ inl (omega (arith, full, after-head))
      | inr none_there ↦ inr (sym (after-word n) ∙ none_there)
    ];
    found = d.found ∙ ground arith;
    effect = d.effect;
    head = omega (arith, d.head, after-head);
    others = λ p ne. d.others p ne ∙ after-others p ne;
    observed =
        d.observed
        ∙ ap (λ x. u32 (x + n)) after-observed
        ∙ counts_on (s.queue_observed_arrivals q) n;
  }
    where
      reals : (j : ℕ) → j < suc n → queue_word g s q (s.arrival_queue_head q + j) ≢ 0
      reals zero lt e = word (ap (queue_word g s q) (plus_zero (s.arrival_queue_head q)) ∙ e)
      reals (suc j) lt e = d.real j (omega arith) (after-word j ∙ e)

drain_from-IsDrained :
    (rounds : ℕ) (g : FusedGlobals) (q : ℕ) (any : Bool) (s : Arrived)
    → g.remote_queue_stride < 2 ^ 32
    → s.arrival_queue_head q ≤ g.remote_queue_stride
    → s.queue_observed_arrivals q < 2 ^ 32
    → g.remote_queue_stride - s.arrival_queue_head q ≤ rounds
    → (n : ℕ) × IsDrained g q s any (drain_from rounds g q any s) n
unfolding drain_from
drain_from-IsDrained zero g q any s small le word enough =
    (0, IsDrained-none g q s any le word (inl (omega arith)))
drain_from-IsDrained (suc rounds) g q any s small le word enough =
    if_known (λ r. (n : ℕ) × IsDrained g q s any r n)
      (ltb (s.arrival_queue_head q) g.remote_queue_stride
        && ltb 0 (queue_word g s q (s.arrival_queue_head q)))
      (λ goes_on.
        let low : s.arrival_queue_head q < g.remote_queue_stride = ground (arith, goes_on) in
        let (n, d) =
          drain_from-IsDrained rounds g q true (after_one g q s) small
            (omega (arith, after-head g q s small low))
            (omega (arith, after-observed g q s small low))
            (omega (arith, after-head g q s small low)) in
        (
          suc n,
          IsDrained-next g q s small low any (drain_from rounds g q true (after_one g q s)) n
              (ground (arith, goes_on)) d,
        ))
      (λ ends. (0, IsDrained-none g q s any le word (ends_at ends)))
  where
    ends_at :
        (ltb (s.arrival_queue_head q) g.remote_queue_stride
            && ltb 0 (queue_word g s q (s.arrival_queue_head q)))
          ≡ false
        → (s.arrival_queue_head q ≡ g.remote_queue_stride)
          ⊎ (queue_word g s q (s.arrival_queue_head q) ≡ 0)
    ends_at ends = ground (arith, le)

-- A drain of a queue whose head lies in it ends, and takes exactly the words from the head on up to
-- the first empty place or the end of the queue, in order: none of them is empty, the head and the
-- queue's counter go on by their number, other queues keep their heads, and the result says whether
-- there was any.
pub drain-IsDrained :
    (g : FusedGlobals) (q : ℕ) (s : Arrived)
    → g.remote_queue_stride < 2 ^ 32
    → s.arrival_queue_head q ≤ g.remote_queue_stride
    → s.queue_observed_arrivals q < 2 ^ 32
    → (n : ℕ) × IsDrained g q s false (drain_arrival_queue g q s) n
unfolding drain_arrival_queue
drain-IsDrained g q s small le word =
    drain_from-IsDrained (g.remote_queue_stride - s.arrival_queue_head q) g q false s small le word
      (omega arith)
