-- ===== src/Broker/Safety.antt =====
-- What the barrier guarantees, and that it does not come to a standstill.
use m_kernel.Prelude.{ℕ, Bool, ◌<◌, ◌≤◌, ◌≢◌, arith, suc, refl, zero}
use m_kernel.Broker.{by_process, begun, onward, failed, Node, first_node, NodeStep, Reaches}
use m_kernel.Broker.Phases.{booting, arriving, departing, Phase, Every, Booting}
use m_kernel.Prelude.Int.{ℤ}
use m_kernel.Broker.Start.{booting-keeps}
use m_kernel.Broker.Arriving.{arriving-keeps}
use m_kernel.Broker.Departing.{departing-keeps}
use m_kernel.Broker.Bounds.{booting-together, Arriving-Bounds, Departing-Bounds}

step-Phase : (n : ℕ) (s t : Node) → Phase n s → NodeStep n s t → Phase n t
step-Phase n s t (booting a) (by_process i {m} {p} low acc) =
    booting-keeps n s a i low (s.places i) m p refl acc
step-Phase n s t (arriving k a) (by_process i {m} {p} low acc) =
    arriving-keeps n i s low k a (s.places i) m p refl acc
step-Phase n s t (departing k a) (by_process i {m} {p} low acc) =
    departing-keeps n i s low k a (s.places i) m p refl acc

first-Phase : (n : ℕ) (barrier : ℤ) (sense : Bool) → Phase n (first_node barrier sense)
first-Phase n barrier sense = booting (record { not_init = refl; all_booting = every })
  where
    every : Every n (first_node barrier sense) (Booting (first_node barrier sense).vault)
    every zero low = (refl, refl)
    every (suc j) low = (refl, refl)

pub Reaches-Phase :
    (n : ℕ) (barrier : ℤ) (sense : Bool) (s : Node) → Reaches n barrier sense s → Phase n s
Reaches-Phase n barrier sense s begun = first-Phase n barrier sense
Reaches-Phase n barrier sense t (onward {s} r step) =
    step-Phase n s t (Reaches-Phase n barrier sense s r) step

-- Whatever the order in which `n` processes access the shared memory, in any number of calls of
-- sync, and whatever the counter and the flag were before the leader initialised them: no process
-- has returned from more calls than any other process has entered, so that nobody leaves a barrier
-- before all have come to it, and none has thrown.
pub sync-together :
    (n : ℕ) (barrier : ℤ) (sense : Bool) (s : Node) (i j : ℕ)
    → Reaches n barrier sense s
    → i < n
    → j < n
    → (s.left i ≤ s.entered j) × (s.places i ≢ failed)
sync-together n barrier sense s i j r low_i low_j = elim (Reaches-Phase n barrier sense s r) [
  | booting a ↦ booting-together n s i j a low_i low_j
  | arriving k a ↦
      let (e, l, fine) =
        Arriving-Bounds k (s.places i) (s.entered i) (s.left i) (a.all_arriving i low_i) in
      let (e_j, l_j, fine_j) =
        Arriving-Bounds k (s.places j) (s.entered j) (s.left j) (a.all_arriving j low_j) in
      (omega arith, fine)
  | departing k a ↦
      let (e, l, fine) =
        Departing-Bounds k (s.places i) (s.entered i) (s.left i) (a.all_departing i low_i) in
      let (e_j, l_j, fine_j) =
        Departing-Bounds k (s.places j) (s.entered j) (s.left j) (a.all_departing j low_j) in
      (omega arith, fine)
]
