-- ===== src/Fifo/Bundle/Lanes.antt =====
-- Which ring a lane's commands go through.
use m_kernel.Prelude.{
  ℕ, ◌+◌, ◌*◌, ◌%◌, ◌^◌, ◌≤◌, ◌<◌, ◌≡◌, refl, arith, if◌then◌else◌, leb, ◌/◌, ◌-◌, ap,
  high_digit-lt, mod-lt, ◌∙◌, div-mul-le_self, sym, lt-div-mul-add,
}
use m_kernel.Prelude.Int.{pos}
use m_kernel.Fifo.Bundle.{FifoBundle, fifo_index_for_lane, select_fifo_for_lane, positive_word}

-- The counts of a bundle that `int` can hold and that are at least 1.
pub record Counts (b : FifoBundle) (fifos qps per_fifo : ℕ) : Type 0 where
  pub num_fifos : b.num_fifos ≡ pos fifos
  pub global_num_qps : b.global_num_qps ≡ pos qps
  pub qps_per_fifo : b.qps_per_fifo ≡ pos per_fifo
  pub some_fifo : 0 < fifos
  pub some_qp : 0 < qps
  pub some_share : 0 < per_fifo
  pub fifos_fit : fifos < 2 ^ 31
  pub qps_fit : qps < 2 ^ 31
  pub share_fits : per_fifo < 2 ^ 31

positive_word-pos : (n d : ℕ) → 0 < n → n < 2 ^ 31 → positive_word (pos n) d ≡ n
unfolding positive_word
positive_word-pos n d h k = ground arith

-- The choice among the counts as numbers.
abbrev share_index : ℕ → ℕ → ℕ → ℕ → ℕ
share_index fifos qps per_fifo lane =
    if leb fifos 1
    then 0
    else if leb fifos (lane % qps / per_fifo)
    then fifos - 1
    else lane % qps / per_fifo

fifo_index-share_index :
    (b : FifoBundle) (fifos qps per_fifo lane : ℕ)
    → Counts b fifos qps per_fifo
    → fifo_index_for_lane b lane ≡ share_index fifos qps per_fifo lane
unfolding fifo_index_for_lane
fifo_index-share_index b fifos qps per_fifo lane c =
    rw
      (
        c.num_fifos,
        c.global_num_qps,
        c.qps_per_fifo,
        positive_word-pos qps 1 c.some_qp c.qps_fit,
        positive_word-pos per_fifo qps c.some_share c.share_fits,
        small,
      )
      refl
  where
    small : fifos % 2 ^ 32 ≡ fifos
    small = omega (arith, c.fifos_fit)

-- In a bundle of `fifos` rings, `qps` QPs and `per_fifo` QPs for each ring, whose counts are
-- positive and enough for all QPs: the ring of a lane is one of the bundle's, and it is the ring
-- whose share of the QPs holds the QP of the lane.
pub fifo_index-share :
    (b : FifoBundle) (fifos qps per_fifo lane : ℕ)
    → Counts b fifos qps per_fifo
    → qps ≤ fifos * per_fifo
    → (fifo_index_for_lane b lane < fifos)
      × (fifo_index_for_lane b lane * per_fifo ≤ lane % qps)
      × (lane % qps < (fifo_index_for_lane b lane + 1) * per_fifo)
fifo_index-share b fifos qps per_fifo lane c h =
    rw (fifo_index-share_index b fifos qps per_fifo lane c) (
      ground (
        arith,
        high_digit-lt per_fifo (lane % qps) fifos (omega (arith, mod-lt lane c.some_qp)),
        div-mul-le_self (lane % qps) per_fifo,
        lt-div-mul-add {a = lane % qps} c.some_share,
        c.some_fifo,
      ))

-- Whatever the counts, lanes with the same remainder by the number of QPs go through one ring, and
-- that ring is one of the bundle's.
pub fifo_index-same_qp :
    (b : FifoBundle) (fifos qps per_fifo lane other : ℕ)
    → Counts b fifos qps per_fifo
    → lane % qps ≡ other % qps
    → (select_fifo_for_lane b lane ≡ select_fifo_for_lane b other)
      × (fifo_index_for_lane b lane < fifos)
unfolding select_fifo_for_lane
fifo_index-same_qp b fifos qps per_fifo lane other c h = (
  ap b.fifos (
      fifo_index-share_index b fifos qps per_fifo lane c
      ∙ same
      ∙ sym (fifo_index-share_index b fifos qps per_fifo other c)),
  rw (fifo_index-share_index b fifos qps per_fifo lane c) (ground (arith, c.some_fifo)),
)
  where
    same : share_index fifos qps per_fifo lane ≡ share_index fifos qps per_fifo other
    same = rw h refl
