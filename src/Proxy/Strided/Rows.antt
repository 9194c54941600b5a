-- ===== src/Proxy/Strided/Rows.antt =====
-- What a gather copies.
use m_kernel.Prelude.{
  ℕ, zero, suc, List, [], ◌∷◌, u64, ◌++◌, ◌+◌, ◌*◌, ◌<◌, ◌≡◌, ◌≤◌, ap, ◌^◌, arith, ◌-◌, ◌∙◌, min,
  mod-lt, u32, lt-div-mul-add, refl, sym, ◌/◌,
}
use m_kernel.Proxy.{Sge, WorkRequest}
use m_kernel.Proxy.Strided.{Gather, data_wrs, n_data_wrs, row_sges}

-- The bytes of one row: where they come from, where they go, and how many there are.
pub record Copied : Type 0 where
  pub source : ℕ
  pub target : ℕ
  pub count : ℕ

-- An RDMA write lays its parts one after another from the remote address on.
unfoldable pub copies : List Sge → ℕ → List Copied
copies [] target = []
copies (sge ∷ sges) target =
    record { source = sge.from_addr; target = target; count = sge.bytes_long }
    ∷ copies sges (u64 (target + sge.bytes_long))

unfoldable pub copied : List WorkRequest → List Copied
unfolding copies
copied [] = []
copied (wr ∷ wrs) = copies wr.sg_list wr.remote_addr ++ copied wrs

abbrev row_copied : Gather → ℕ → ℕ → Copied
row_copied g row target = record {
  source = u64 (g.base + row * g.stride);
  target = target;
  count = g.span;
}

-- `n` rows from `row` on, each to the place after the one before it.
unfoldable pub rows_copied : Gather → ℕ → ℕ → ℕ → List Copied
rows_copied g row zero target = []
rows_copied g row (suc n) target =
    row_copied g row target ∷ rows_copied g (row + 1) n (u64 (target + g.span))

copies-row_sges :
    (g : Gather) (n row target : ℕ) → copies (row_sges g row n) target ≡ rows_copied g row n target
unfolding copies row_sges rows_copied
copies-row_sges g zero row target = refl
copies-row_sges g (suc n) row target =
    ap (λ rest. row_copied g row target ∷ rest)
      (copies-row_sges g n (row + 1) (u64 (target + g.span)))

rows_copied-at :
    (g : Gather) {n n' row row' target target' : ℕ}
    → n ≡ n'
    → row ≡ row'
    → target ≡ target'
    → rows_copied g row n target ≡ rows_copied g row' n' target'
rows_copied-at g {n} {n'} {row} {row'} {target} {target'} e h k =
    ap (λ x. rows_copied g row x target) e
    ∙ ap (λ x. rows_copied g x n' target) h
    ∙ ap (rows_copied g row' n') k

rows_copied-append :
    (g : Gather) (n m row target : ℕ)
    → target < 2 ^ 64
    → rows_copied g row (n + m) target
      ≡ rows_copied g row n target ++ rows_copied g (row + n) m (u64 (target + n * g.span))
unfolding rows_copied
rows_copied-append g zero m row target h =
    rows_copied-at g (omega arith) (omega arith) (omega arith)
rows_copied-append g (suc n) m row target h =
    rows_copied-at g {n' = suc (n + m)} {row' = row} {target' = target} (omega arith) refl refl
    ∙ ap (λ rest. row_copied g row target ∷ rest)
        (rows_copied-append g n m (row + 1) (u64 (target + g.span))
            (mod-lt (target + g.span) (omega arith))
          ∙ ap (λ rest. rows_copied g (row + 1) n (u64 (target + g.span)) ++ rest)
              (rows_copied-at g {n = m} {n' = m} {row = row + 1 + n} {row' = row + suc n}
                {target' = u64 (target + suc n * g.span)} refl (omega arith) (omega arith)))

ap2_append : {xs xs' ys ys' : List Copied} → xs ≡ xs' → ys ≡ ys' → xs ++ ys ≡ xs' ++ ys'
ap2_append {xs' = xs'} {ys = ys} h k = ap (λ l. l ++ ys) h ∙ ap (λ l. xs' ++ l) k

data_wrs-copied :
    (g : Gather) (rows max_sge w row target : ℕ)
    → row ≤ rows
    → rows ≤ row + w * max_sge
    → target < 2 ^ 64
    → copied (data_wrs g rows max_sge w row target) ≡ rows_copied g row (rows - row) target
unfolding data_wrs copied rows_copied
data_wrs-copied g rows max_sge zero row target h k t =
    rows_copied-at g {n = 0} {n' = rows - row} {row = row} {row' = row} {target = target}
      {target' = target} (omega arith) refl refl
data_wrs-copied g rows max_sge (suc w) row target h k t =
    ap2_append (copies-row_sges g n row target) (
      data_wrs-copied g rows max_sge w (row + n) (u64 (target + n * g.span)) (omega arith)
        (ground arith) (mod-lt (target + n * g.span) (omega arith)))
    ∙ sym (rows_copied-append g n (rows - (row + n)) row target t)
    ∙ rows_copied-at g {n' = rows - row} {row = row} {row' = row} {target = target}
        {target' = target} (omega arith) refl refl
  where
    n : ℕ
    n = min (rows - row) max_sge

n_data_wrs-enough :
    (rows max_sge : ℕ)
    → 1 ≤ max_sge
    → rows + max_sge < 2 ^ 32
    → rows ≤ n_data_wrs rows max_sge * max_sge
unfolding n_data_wrs
n_data_wrs-enough rows max_sge h k =
    omega (arith, lt-div-mul-add {a = rows + max_sge - 1} h, ap (λ x. x / max_sge * max_sge) small)
  where
    small : u32 (rows + max_sge - 1) ≡ rows + max_sge - 1
    small = omega arith

-- The data requests of a gather, at least one row for each request being allowed and the counts
-- being 32-bit words, copy exactly the rows 0 to `rows - 1`, each once and in their order, from
-- one stride after another to places that follow one another without a gap.
pub data_wrs-rows :
    (g : Gather) (rows max_sge target : ℕ)
    → 1 ≤ max_sge
    → rows + max_sge < 2 ^ 32
    → target < 2 ^ 64
    → copied (data_wrs g rows max_sge (n_data_wrs rows max_sge) 0 target)
      ≡ rows_copied g 0 rows target
data_wrs-rows g rows max_sge target h k t =
    data_wrs-copied g rows max_sge (n_data_wrs rows max_sge) 0 target (omega arith)
      (omega (arith, n_data_wrs-enough rows max_sge h k)) t
    ∙ ap (λ n. rows_copied g 0 n target) (omega arith)
