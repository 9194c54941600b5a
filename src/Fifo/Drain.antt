-- ===== src/Fifo/Drain.antt =====
-- `count_ready` foretells what `poll` will return.
use m_kernel.Prelude.{
  Option, none, some, List, [], ◌∷◌, ℕ, zero, suc, ◌+◌, ◌^◌, ◌≤◌, ◌<◌, ◌≡◌, refl, arith, IsPow2,
  List, length, update, update_ne, [], ◌∙◌, u64, Bool-cases, inl, inr, ap, false, true,
}
use m_kernel.Types.{TransferCmd, is_empty, CmdType}
use m_kernel.Fifo.{Fifo, poll, slot_index, count_ready, count_from}
use m_kernel.Fifo.Words.{slot_index-ne}

-- The commands of up to `n` polls in a row, which stop at the first that finds nothing.
unfoldable pub drained : Fifo → ℕ → List TransferCmd
drained f zero = []
drained f (suc n) = let (r, g) = poll f in elim r [ none ↦ [] | some cmd ↦ cmd ∷ drained g n ]

-- `g` is `f` after `r` polls that each found a command.
record After (f g : Fifo) (r : ℕ) : Type 0 where
  same_capacity : g.capacity ≡ f.capacity
  cursor : g.cpu_head ≡ f.cpu_head + r
  ahead :
      (k : ℕ)
      → r ≤ k
      → k < f.capacity
      → g.triggers (slot_index f.capacity (f.cpu_head + k))
        ≡ f.triggers (slot_index f.capacity (f.cpu_head + k))

module _ (f : Fifo) (pow : IsPow2 f.capacity) where
  -- The state that a poll leaves when it finds a command.
  abbrev polled : Fifo → Fifo
  polled g =
      let idx : ℕ = slot_index g.capacity g.cpu_head in
      record g {
        triggers = update g.triggers idx (record (g.triggers idx) { cmd_type = CmdType.empty });
        cpu_head = u64 (g.cpu_head + 1);
      }

  After-polled :
      (g : Fifo) (r : ℕ) → After f g r → f.cpu_head + r + 1 < 2 ^ 64 → After f (polled g) (r + 1)
  After-polled g r a wide = record {
    same_capacity = a.same_capacity;
    cursor = omega (arith, a.cursor);
    ahead = λ k h w.
        rw (a.same_capacity, a.cursor)
          (update_ne g.triggers _ _ _
              (slot_index-ne (f.cpu_head + r) (f.cpu_head + k) pow (omega arith) (omega arith))
            ∙ a.ahead k (omega arith) w);
  }

  front : Fifo → TransferCmd
  front g = g.triggers (slot_index g.capacity g.cpu_head)

  drained-nothing : (g : Fifo) (n : ℕ) → is_empty (front g).cmd_type ≡ true → drained g (suc n) ≡ []
  unfolding drained poll front
  drained-nothing g n e = rw (drained, poll, e) refl

  poll-found :
      (g : Fifo) → is_empty (front g).cmd_type ≡ false → poll g ≡ (some (front g), polled g)
  unfolding poll front
  poll-found g e = rw e refl

  drained-something :
      (g : Fifo) (n : ℕ)
      → is_empty (front g).cmd_type ≡ false
      → drained g (suc n) ≡ front g ∷ drained (polled g) n
  unfolding drained
  drained-something g n e =
      ap
        (λ (r : Option TransferCmd × Fifo). elim r.0 as (λ o. List TransferCmd) [
          | none ↦ []
          | some cmd ↦ cmd ∷ drained r.1 n
        ])
        (poll-found g e)

  -- What stands `r` slots beyond the cursor of `f`.
  beyond : ℕ → TransferCmd
  beyond r = f.triggers (slot_index f.capacity (u64 (f.cpu_head + r)))

  count_from-nothing :
      (r left : ℕ) → is_empty (beyond r).cmd_type ≡ true → count_from f r (suc left) ≡ r
  unfolding count_from beyond
  count_from-nothing r left e = rw e refl

  count_from-something :
      (r left : ℕ)
      → is_empty (beyond r).cmd_type ≡ false
      → count_from f r (suc left) ≡ count_from f (r + 1) left
  unfolding count_from beyond
  count_from-something r left e = rw e refl

  front-beyond :
      (g : Fifo) (r : ℕ)
      → After f g r
      → r < f.capacity
      → f.cpu_head + r < 2 ^ 64
      → front g ≡ beyond r
  unfolding front beyond
  front-beyond g r a room wide =
      ap g.triggers (rw (a.same_capacity, a.cursor) refl)
      ∙ a.ahead r (omega arith) room
      ∙ ap (λ k. f.triggers (slot_index f.capacity k)) (omega arith)

  count_from-drained :
      (left r : ℕ) (g : Fifo)
      → After f g r
      → r + left ≤ f.capacity
      → f.cpu_head + r + left < 2 ^ 64
      → count_from f r left ≡ r + length (drained g left)
  unfolding count_from drained
  count_from-drained zero r g a room wide = omega arith
  count_from-drained (suc left) r g a room wide = elim (Bool-cases (is_empty (beyond r).cmd_type)) [
    | inl e ↦
        omega (arith, count_from-nothing r left e, ap length (drained-nothing g left (same ∙ e)))
    | inr e ↦ omega (
      arith,
      count_from-something r left e,
      ap length (drained-something g left (same ∙ e)),
      count_from-drained left (r + 1) (polled g) (After-polled g r a (omega arith)) (omega arith)
          (omega arith),
    )
  ]
    where
      same : is_empty (front g).cmd_type ≡ is_empty (beyond r).cmd_type
      same =
          ap (λ (c : TransferCmd). is_empty c.cmd_type)
            (front-beyond g r a (omega arith) (omega arith))

-- For a limit of at most the capacity, and no wrap of the cursor, `count_ready` is the number of
-- commands that as many polls in a row return before the first empty one.
pub count_ready-drained :
    (f : Fifo) (limit : ℕ)
    → IsPow2 f.capacity
    → limit ≤ f.capacity
    → f.cpu_head + limit < 2 ^ 64
    → count_ready f limit ≡ length (drained f limit)
unfolding count_ready
count_ready-drained f limit pow room wide = omega (
  arith,
  count_from-drained f pow limit 0 f
      (record { same_capacity = refl; cursor = omega arith; ahead = λ k h w. refl }) (omega arith)
      (omega arith),
)
