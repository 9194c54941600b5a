-- ===== src/Broker/Tests.antt =====
-- Two processes in the barrier.
use m_kernel.Broker.{
  Node, Vault, Place, begins, ends, cleared, zeroed, outside, checked, raise, wait_set, failed,
  first_node, Reaches, begun, onward, by_process, clear, zero_sense, publish, see_init, enter,
  arrive, arrive_last,
}
use m_kernel.Prelude.{ℕ, Bool, false, true, update, ◌<◌, ◌≤◌, arith, ◌+◌, ◌≢◌, ap, refl, suc, zero}
use m_kernel.Prelude.Int.{pos}
use m_kernel.Broker.Progress.{CanMove, sync-moves}
use m_kernel.Broker.Safety.{sync-together}
use m_kernel.Broker.Steps.{magnitude}
use m_kernel.Proxy.{plus}

-- A process moves on.
abbrev next : Node → (i : ℕ) → Vault → Place → Node
next s i m p = record {
  vault = m;
  places = update s.places i p;
  entered = update s.entered i (s.entered i + begins (s.places i) p);
  left = update s.left i (s.left i + ends (s.places i) p);
}

abbrev made : Bool → Vault
made sense = record { init = true; barrier = pos 0; sense = sense }

abbrev counts : ℕ → Bool → Vault
counts c sense = record { init = true; barrier = pos c; sense = sense }

-- The leader finds a used counter and a set flag, and both processes come into the barrier.
abbrev first : Node
first = first_node (pos 5) true

abbrev ready : Node
ready =
    next
      (next
        (next (next first 0 (record { init = false; barrier = pos 0; sense = true }) cleared) 0
          (record { init = false; barrier = pos 0; sense = false }) zeroed)
        0 (made false) outside)
      1 (made false) outside

abbrev both_in : Node
both_in =
    next
      (next (next (next ready 0 (made false) checked) 1 (made false) checked) 1 (counts 1 false)
        wait_set)
      0 (counts 2 false) raise

ready-reached : Reaches 2 (pos 5) true ready
ready-reached =
    onward
      (onward
        (onward (onward begun (by_process 0 (omega arith) clear))
          (by_process 0 (omega arith) zero_sense))
        (by_process 0 (omega arith) publish))
      (by_process 1 (omega arith) (see_init refl))

both_in-reached : Reaches 2 (pos 5) true both_in
unfolding plus
both_in-reached =
    onward
      (onward
        (onward (onward ready-reached (by_process 0 (omega arith) (enter refl)))
          (by_process 1 (omega arith) (enter refl)))
        (by_process 1 (omega arith) (arrive (λ e. absurd (omega (arith, ap magnitude e))))))
      (by_process 0 (omega arith) (arrive_last refl))

sync-together_example : (both_in.left 1 ≤ both_in.entered 0) × (both_in.places 1 ≢ failed)
sync-together_example =
    sync-together 2 (pos 5) true both_in 1 0 both_in-reached (omega arith) (omega arith)

sync-moves_example : (i : ℕ) × (i < 2) × CanMove 2 both_in.vault (both_in.places i)
sync-moves_example = sync-moves 2 (pos 5) true both_in both_in-reached (omega arith) inside
  where
    inside : (j : ℕ) → j < 2 → both_in.places j ≢ outside
    inside zero low e = absurd (cc)
    inside (suc zero) low e = absurd (cc)
    inside (suc (suc j)) low e = absurd (omega arith)
