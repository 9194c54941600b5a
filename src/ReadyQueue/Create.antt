-- ===== src/ReadyQueue/Create.antt =====
-- The capacity of a new ready queue.
use m_kernel.Prelude.{
  bit_and_pred-IsPow2, smear-IsPow2, smear, ℕ, ◌<◌, ◌≤◌, ◌^◌, IsPow2, if◌then◌else◌, ◌*◌, bit_and,
  ◌==◌, arith, u32, ◌+◌, ◌-◌, ◌≡◌, true, ap, sym, ◌∙◌, ==_iff, false, dec_lt, if_known,
  mod-eq_of_lt,
}
use m_kernel.ReadyQueue.{create_ready_queue}
use mathlib.Core.Path.{subst}

-- The rounding of a number that is not 0.
rounds :
    (asked : ℕ)
    → 0 < asked
    → asked ≤ 2 ^ 31
    → IsPow2 (
        if bit_and asked (u32 (asked + 2 ^ 32 - 1)) == 0
        then asked
        else u32 (smear (asked - 1) + 1))
      × (asked ≤ (
          if bit_and asked (u32 (asked + 2 ^ 32 - 1)) == 0
          then asked
          else u32 (smear (asked - 1) + 1)))
      × ((if bit_and asked (u32 (asked + 2 ^ 32 - 1)) == 0
            then asked
            else u32 (smear (asked - 1) + 1))
          < 2 * asked)
rounds asked some low =
    if_known (λ (c : ℕ). IsPow2 c × (asked ≤ c) × (c < 2 * asked))
      (bit_and asked (u32 (asked + 2 ^ 32 - 1)) == 0)
      (λ power. (
        bit_and_pred-IsPow2 asked asked (omega arith) some (is_zero power),
        omega arith,
        omega arith,
      ))
      (λ other.
        let (power, ge, lt) = smear-IsPow2 asked (more other) (omega arith) in
        let fits : u32 (smear (asked - 1) + 1) ≡ smear (asked - 1) + 1 =
          mod-eq_of_lt (omega arith) in
        (subst IsPow2 (sym fits) power, omega (arith, fits), omega (arith, fits)))
  where
    pred_is : u32 (asked + 2 ^ 32 - 1) ≡ asked - 1
    pred_is = omega arith

    is_zero : (bit_and asked (u32 (asked + 2 ^ 32 - 1)) == 0) ≡ true → bit_and asked (asked - 1) ≡ 0
    is_zero power = ap (bit_and asked) (sym pred_is) ∙ (==_iff _ 0).0 power

    more : (bit_and asked (u32 (asked + 2 ^ 32 - 1)) == 0) ≡ false → 1 < asked
    more other = elim (dec_lt 1 asked) [
      | yes big ↦ big
      | no small ↦
          let one : asked ≡ 1 = omega arith in
          absurd (cc (other, ap (λ a. bit_and a (u32 (a + 2 ^ 32 - 1)) == 0) one))
    ]

-- A new queue's capacity is the least power of two that is not below the number asked for, up to
-- 2^31, where 0 asks for 256; so 0 gives 256.
pub create-IsPow2 :
    (capacity : ℕ)
    → capacity ≤ 2 ^ 31
    → IsPow2 (create_ready_queue capacity).capacity
      × ((if capacity == 0 then 256 else capacity) ≤ (create_ready_queue capacity).capacity)
      × ((create_ready_queue capacity).capacity < 2 * (if capacity == 0 then 256 else capacity))
unfolding create_ready_queue
create-IsPow2 capacity low =
    let (power, ge, lt) =
      rounds (if capacity == 0 then 256 else capacity) (ground arith) (ground arith) in
    (power, ge, lt)
