-- ===== src/AgGemm/Ring.antt =====
-- Whose row arrives in which step: `ag_gemm_ring_origin_for_step` and the next node of the ring.
use m_kernel.Prelude.{
  ℕ, ◌<◌, ◌≤◌, ◌+◌, ◌-◌, ◌≡◌, arith, some, ◌%◌, dec_lt, suc, ◌*◌, ap, sym, mod-eq_of_lt,
  mul-add-mod_self_right, zero, ◌/◌, ◌∙◌, div-add-mod', refl, mod-lt, low_digit,
}
use m_kernel.AgGemm.{bring_up, ring_origin}
use m_kernel.Proxy.{plus}
use m_kernel.Prelude.Int.{negsuc, sub_ℕ, pos}
use m_kernel.Types.{peer_rank_for_slot}

plus-enough : (n below : ℕ) → below < n → plus (negsuc below) n ≡ pos (n - (below + 1))
unfolding plus
plus-enough n below h = ground arith

plus-short : (n below : ℕ) → n ≤ below → plus (negsuc below) n ≡ negsuc (below - n)
unfolding plus
plus-short n below h = ground arith

rest-up : (n x y : ℕ) → x + n ≡ y → x % n ≡ y % n
rest-up n x y same =
    let one_up : 1 * n + x ≡ y = omega (arith, same) in
    sym (mul-add-mod_self_right 1 n x) ∙ ap (λ z. z % n) one_up

bring_up-done : (fuel n origin : ℕ) → bring_up fuel n (pos origin) ≡ some origin
unfolding bring_up
bring_up-done zero n origin = refl
bring_up-done (suc fuel) n origin = refl

bring_up-step :
    (fuel n below : ℕ)
    → bring_up (suc fuel) n (negsuc below) ≡ bring_up fuel n (plus (negsuc below) n)
unfolding bring_up
bring_up-step fuel n below = refl

bring_up-some :
    (n fuel below : ℕ)
    → below + 1 ≤ fuel
    → 0 < n
    → bring_up fuel n (negsuc below) ≡ some (n - 1 - below % n)
bring_up-some n zero below h pos_n = absurd (omega arith)
bring_up-some n (suc fuel) below h pos_n = bring_up-step fuel n below ∙ elim (dec_lt below n) [
  | yes low ↦
      ap (bring_up fuel n) (plus-enough n below low)
      ∙ bring_up-done fuel n (n - (below + 1))
      ∙ ap some (omega (arith, mod-eq_of_lt low))
  | no high ↦
      ap (bring_up fuel n) (plus-short n below (omega arith))
      ∙ bring_up-some n fuel (below - n) (omega arith) pos_n
      ∙ ap (λ r. some (n - 1 - r)) (rest-up n (below - n) below (omega arith))
]

start-above : (node step : ℕ) → step < node → sub_ℕ node (1 + step) ≡ pos (node - (1 + step))
start-above node step h = ground arith

start-below : (node step : ℕ) → node ≤ step → sub_ℕ node (1 + step) ≡ negsuc (step - node)
start-below node step h = ground arith

-- The origin as one remainder.
ring_origin-eq :
    (node n step : ℕ) → node < n → ring_origin node n step ≡ some (n - 1 - (step + n - node) % n)
unfolding ring_origin
ring_origin-eq node n step h = elim (dec_lt step node) [
  | yes above ↦ rw (start-above node step above) (
      let small : step + n - node < n = omega arith in
      bring_up-done (step + 1) n (node - (1 + step)) ∙ ap some (omega (arith, mod-eq_of_lt small)))
  | no below ↦ rw (start-below node step (omega arith)) (
      bring_up-some n (step + 1) (step - node) (omega arith) (omega arith)
      ∙ ap (λ r. some (n - 1 - r)) (rest-up n (step - node) (step + n - node) (omega arith)))
]

-- The number of the node that is `step + 1` places further round is the node itself.
origin-comes_back :
    (node n step : ℕ) → node < n → (n - 1 - (step + n - node) % n + (step + 1)) % n ≡ node
origin-comes_back node n step h =
    let a : ℕ = step + n - node in
    let pos_n : 0 < n = omega arith in
    let whole : n - 1 - a % n + (step + 1) ≡ a / n * n + node =
      omega (arith, div-add-mod' a n, mod-lt a pos_n) in
    ap (λ y. y % n) whole ∙ low_digit n (a / n) node h

next-inside : (node n : ℕ) → node + 1 < n → peer_rank_for_slot node n 0 ≡ node + 1
unfolding peer_rank_for_slot
next-inside node n h = ground arith

next-round : (node n : ℕ) → n ≡ node + 1 → peer_rank_for_slot node n 0 ≡ 0
unfolding peer_rank_for_slot
next-round node n h = ground arith

origin-next :
    (node n step : ℕ)
    → node < n
    → ring_origin (peer_rank_for_slot node n 0) n (step + 1) ≡ some (n - 1 - (step + n - node) % n)
origin-next node n step h = elim (dec_lt (node + 1) n) [
  | yes inside ↦
      rw (next-inside node n inside) (
        ring_origin-eq (node + 1) n (step + 1) inside
        ∙ ap (λ x. some (n - 1 - x % n)) (omega arith))
  | no round ↦ rw (next-round node n (omega arith)) (
      ring_origin-eq 0 n (step + 1) (omega arith)
      ∙ ap (λ r. some (n - 1 - r))
          (sym (rest-up n (step + n - node) (step + 1 + n - 0) (omega arith))))
]

-- For a node of a ring of `num_nodes` nodes, the row that arrives in step `step` has an origin, which
-- is one of the nodes and stands `step + 1` places before the node, and in the step after that the
-- next node receives the row of the same origin.
pub ring_origin-passed_on :
    (node_idx num_nodes step : ℕ)
    → node_idx < num_nodes
    → (origin : ℕ) × (ring_origin node_idx num_nodes step ≡ some origin)
      × (origin < num_nodes)
      × ((origin + (step + 1)) % num_nodes ≡ node_idx)
      × (ring_origin (peer_rank_for_slot node_idx num_nodes 0) num_nodes (step + 1) ≡ some origin)
ring_origin-passed_on node n step h = (
  n - 1 - (step + n - node) % n,
  ring_origin-eq node n step h,
  omega arith,
  origin-comes_back node n step h,
  origin-next node n step h,
)
