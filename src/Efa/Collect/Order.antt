-- ===== src/Efa/Collect/Order.antt =====
-- The collection of a batch keeps its promise.
use m_kernel.Prelude.{
  ℕ, Bool, List, Option, ◌≡◌, false, none, some, refl, ◌∙◌, [], ap, true, arith, ◌∷◌, if◌then◌else◌,
}
use m_kernel.Efa.{Efa}
use m_kernel.Efa.Collect.{EfaCollected, seed_loop, seeded, map_to_local_qp}
use m_kernel.Types.{TransferCmd}
use m_kernel.Prelude.Int.{pos}
use m_kernel.Proxy.{below}

module _ (accept : ℕ → Bool) (n : ℕ) (s : Efa) where
  -- What the batch is seeded with.
  seeded_by : List (Option TransferCmd) → Option TransferCmd → EfaCollected
  seeded_by ps none = seed_loop accept (pos n) ps s [] 0
  seeded_by ps (some cmd) =
      if below (pos n) 0 s.effective_max_inflight
      then seed_loop accept (pos n) ps (record s { pending_cmd = none }) (cmd ∷ [])
          (map_to_local_qp s.cfg cmd)
      else seed_loop accept (pos n) ps s [] 0

  seeded-by :
      (ps : List (Option TransferCmd)) → seeded accept (pos n) ps s ≡ seeded_by ps s.pending_cmd
  unfolding seeded seeded_by
  seeded-by ps = go s.pending_cmd
    where
      go :
          (p : Option TransferCmd)
          → (elim p as (λ _. EfaCollected) [
            | none ↦ seed_loop accept (pos n) ps s [] 0
            | some cmd ↦ elim (below (pos n) 0 s.effective_max_inflight) [
              | true ↦
                  seed_loop accept
                    (pos n)
                    ps
                    (record s { pending_cmd = none })
                    (cmd ∷ [])
                    (map_to_local_qp s.cfg cmd)
              | false ↦ seed_loop accept (pos n) ps s [] 0
            ]
          ])
            ≡ seeded_by ps p
      go none = refl
      go (some cmd) = ground arith

  pub seeded-none :
      (ps : List (Option TransferCmd))
      → s.pending_cmd ≡ none
      → seeded accept (pos n) ps s ≡ seed_loop accept (pos n) ps s [] 0
  unfolding seeded_by
  seeded-none ps clear = seeded-by ps ∙ ap (seeded_by ps) clear
