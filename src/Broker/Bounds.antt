-- ===== src/Broker/Bounds.antt =====
-- What a phase says of the calls that a process has made.
use m_kernel.Broker.{
  outside, checked, raise, wait_set, wait_clear, wait_init, boot, cleared, zeroed, leaving, lower,
  failed, Node, Place, Vault,
}
use m_kernel.Prelude.{ℕ, ◌<◌, ◌≡◌, ◌≤◌, ◌≢◌, arith, suc, zero}
use m_kernel.Broker.Phases.{Arriving, Departing, IsBooting, Leads, Waits}

-- In round k a process has made at least k calls, and at most k have returned; none has thrown.
pub Arriving-Bounds :
    (k : ℕ) (p : Place) (e l : ℕ) → Arriving k p e l → (k ≤ e) × (l ≤ k) × (p ≢ failed)
Arriving-Bounds k boot e l h = absurd h
Arriving-Bounds k cleared e l h = absurd h
Arriving-Bounds k zeroed e l h = absurd h
Arriving-Bounds k wait_init e l h = (omega arith, omega arith, λ x. absurd (cc))
Arriving-Bounds k outside e l h = (omega arith, omega arith, λ x. absurd (cc))
Arriving-Bounds k checked e l h = (omega arith, omega arith, λ x. absurd (cc))
Arriving-Bounds k raise e l h = (omega arith, omega arith, λ x. absurd (cc))
Arriving-Bounds k wait_set e l h = (omega arith, omega arith, λ x. absurd (cc))
Arriving-Bounds k leaving e l h = absurd h
Arriving-Bounds k lower e l h = absurd h
Arriving-Bounds k wait_clear e l h = (omega arith, omega arith, λ x. absurd (cc))
Arriving-Bounds k failed e l h = absurd h

pub Departing-Bounds :
    (k : ℕ) (p : Place) (e l : ℕ) → Departing k p e l → (k < e) × (l ≤ k) × (p ≢ failed)
Departing-Bounds k boot e l h = absurd h
Departing-Bounds k cleared e l h = absurd h
Departing-Bounds k zeroed e l h = absurd h
Departing-Bounds k wait_init e l h = absurd h
Departing-Bounds k outside e l h = absurd h
Departing-Bounds k checked e l h = absurd h
Departing-Bounds k raise e l h = absurd h
Departing-Bounds k wait_set e l h = (omega arith, omega arith, λ x. absurd (cc))
Departing-Bounds k leaving e l h = (omega arith, omega arith, λ x. absurd (cc))
Departing-Bounds k lower e l h = (omega arith, omega arith, λ x. absurd (cc))
Departing-Bounds k wait_clear e l h = (omega arith, omega arith, λ x. absurd (cc))
Departing-Bounds k failed e l h = absurd h

Leads-Bounds : (m : Vault) (p : Place) (e l : ℕ) → Leads m p e l → (l ≡ 0) × (p ≢ failed)
Leads-Bounds m boot e l h = (h.1, λ x. absurd (cc))
Leads-Bounds m cleared e l h = (h.2, λ x. absurd (cc))
Leads-Bounds m zeroed e l h = (h.3, λ x. absurd (cc))
Leads-Bounds m wait_init e l h = absurd h
Leads-Bounds m outside e l h = absurd h
Leads-Bounds m checked e l h = absurd h
Leads-Bounds m raise e l h = absurd h
Leads-Bounds m wait_set e l h = absurd h
Leads-Bounds m leaving e l h = absurd h
Leads-Bounds m lower e l h = absurd h
Leads-Bounds m wait_clear e l h = absurd h
Leads-Bounds m failed e l h = absurd h

Waits-Bounds : (p : Place) (e l : ℕ) → Waits p e l → (l ≡ 0) × (p ≢ failed)
Waits-Bounds boot e l h = absurd h
Waits-Bounds cleared e l h = absurd h
Waits-Bounds zeroed e l h = absurd h
Waits-Bounds wait_init e l h = (h.1, λ x. absurd (cc))
Waits-Bounds outside e l h = absurd h
Waits-Bounds checked e l h = absurd h
Waits-Bounds raise e l h = absurd h
Waits-Bounds wait_set e l h = absurd h
Waits-Bounds leaving e l h = absurd h
Waits-Bounds lower e l h = absurd h
Waits-Bounds wait_clear e l h = absurd h
Waits-Bounds failed e l h = absurd h

pub booting-together :
    (n : ℕ) (s : Node) (i j : ℕ)
    → IsBooting n s
    → i < n
    → j < n
    → (s.left i ≤ s.entered j) × (s.places i ≢ failed)
booting-together n s zero j a low_i low_j =
    let (l, fine) =
      Leads-Bounds s.vault (s.places 0) (s.entered 0) (s.left 0) (a.all_booting 0 low_i) in
    (omega arith, fine)
booting-together n s (suc i) j a low_i low_j =
    let (l, fine) =
      Waits-Bounds (s.places (suc i)) (s.entered (suc i)) (s.left (suc i))
        (a.all_booting (suc i) low_i) in
    (omega arith, fine)
