-- ===== src/Broker/Phases.antt =====
-- The phases of the barrier: the places of all processes at one time, and how many stand where.
use m_kernel.Broker.{
  boot, cleared, zeroed, wait_init, outside, raise, wait_set, leaving, lower, wait_clear,
}
use m_kernel.Prelude.{
  ℕ, ◌<◌, ◌≡◌, false, suc, true, ◌≢◌, update, zero, ◌↔◌, ◌≤◌, Bool, arith, if◌then◌else◌, ◌==◌,
  Bool-cases, inl, sym, ==_iff, inr, ◌+◌,
}
use m_kernel.Broker.{
  Node, Place, Vault, lower, raise, wait_set, leaving, wait_clear, wait_init, boot, outside,
  cleared, checked,
}
use m_kernel.Prelude.Int.{pos}
use m_kernel.Broker.Count.{count}
use mathlib.Core.Path.{subst}

-- The processes that the counter counts while they arrive, and while they depart.
abbrev pub arrived : Place → ℕ
arrived raise = 1
arrived wait_set = 1
arrived _ = 0

abbrev pub staying : Place → ℕ
staying wait_set = 1
staying leaving = 1
staying _ = 0

abbrev pub raising : Place → ℕ
raising raise = 1
raising _ = 0

abbrev pub lowering : Place → ℕ
lowering lower = 1
lowering _ = 0

-- A process in round `k` of the barrier with `e` calls made and `l` returned, while `sense` is 0.
abbrev pub Arriving : (k : ℕ) → Place → (e l : ℕ) → Type 0
Arriving k wait_init e l = (k ≡ 0) × (e ≡ 0) × (l ≡ 0)
Arriving k outside e l = (e ≡ k) × (l ≡ k)
Arriving k checked e l = (e ≡ suc k) × (l ≡ k)
Arriving k raise e l = (e ≡ suc k) × (l ≡ k)
Arriving k wait_set e l = (e ≡ suc k) × (l ≡ k)
Arriving k wait_clear e l = (e ≡ k) × (suc l ≡ k)
Arriving k _ e l = ⊥

-- The same while `sense` is 1.
abbrev pub Departing : (k : ℕ) → Place → (e l : ℕ) → Type 0
Departing k wait_set e l = (e ≡ suc k) × (l ≡ k)
Departing k leaving e l = (e ≡ suc k) × (l ≡ k)
Departing k lower e l = (e ≡ suc k) × (l ≡ k)
Departing k wait_clear e l = (e ≡ suc k) × (l ≡ k)
Departing k _ e l = ⊥

-- Before the memory is initialised: the leader, and the others.
abbrev pub Leads : Vault → Place → (e l : ℕ) → Type 0
Leads m boot e l = (e ≡ 0) × (l ≡ 0)
Leads m cleared e l = (m.barrier ≡ pos 0) × (e ≡ 0) × (l ≡ 0)
Leads m zeroed e l = (m.barrier ≡ pos 0) × (m.sense ≡ false) × (e ≡ 0) × (l ≡ 0)
Leads m _ e l = ⊥

abbrev pub Waits : Place → (e l : ℕ) → Type 0
Waits wait_init e l = (e ≡ 0) × (l ≡ 0)
Waits _ e l = ⊥

abbrev pub Booting : Vault → ℕ → Place → (e l : ℕ) → Type 0
Booting m zero p e l = Leads m p e l
Booting m (suc i) p e l = Waits p e l

-- What holds of all `n` processes.
abbrev pub Every : (n : ℕ) → Node → (ℕ → Place → ℕ → ℕ → Type 0) → Type 0
Every n s P = (j : ℕ) → j < n → P j (s.places j) (s.entered j) (s.left j)

pub record IsArriving (n k : ℕ) (s : Node) : Type 0 where
  pub is_init : s.vault.init ≡ true
  pub is_low : s.vault.sense ≡ false
  pub counts : s.vault.barrier ≡ pos (count arrived n s.places)
  pub last_raises : (count arrived n s.places ≡ n) ↔ (count raising n s.places ≡ 1)
  pub one_raises : count raising n s.places ≤ 1
  pub all_arriving : Every n s (λ j. Arriving k)

pub record IsDeparting (n k : ℕ) (s : Node) : Type 0 where
  pub is_init : s.vault.init ≡ true
  pub is_high : s.vault.sense ≡ true
  pub counts : s.vault.barrier ≡ pos (count staying n s.places)
  pub last_lowers : (count staying n s.places ≡ 0) ↔ (count lowering n s.places ≡ 1)
  pub one_lowers : count lowering n s.places ≤ 1
  pub all_departing : Every n s (λ j. Departing k)

pub record IsBooting (n : ℕ) (s : Node) : Type 0 where
  pub not_init : s.vault.init ≡ false
  pub all_booting : Every n s (Booting s.vault)

-- The phase of a node.
pub data Phase (n : ℕ) (s : Node) : Type 0 where
  booting : IsBooting n s → Phase n s
  arriving : (k : ℕ) → IsArriving n k s → Phase n s
  departing : (k : ℕ) → IsDeparting n k s → Phase n s

-- One process moves, and the others stay.
pub Every-moved :
    (n i : ℕ) (P Q : ℕ → Place → ℕ → ℕ → Type 0) (s : Node) (m : Vault) (p : Place) (e l : ℕ)
    → ((j : ℕ)
        → j < n
        → j ≢ i
        → P j (s.places j) (s.entered j) (s.left j)
        → Q j (s.places j) (s.entered j) (s.left j))
    → Every n s P
    → Q i p e l
    → Every n
        (record {
          vault = m;
          places = update s.places i p;
          entered = update s.entered i e;
          left = update s.left i l;
        })
        Q
Every-moved n i P Q s m p e l others all here j low = elim (Bool-cases (i == j)) [
  | inl same ↦ subst moved (sym same) (subst (λ x. Q x p e l) ((==_iff i j).0 same) here)
  | inr ne ↦ subst moved (sym ne) (others j low (λ back. other ne back) (all j low))
]
  where
    moved : Bool → Type 0
    moved b =
        Q j (if b then p else s.places j) (if b then e else s.entered j) (if b then l else s.left j)

    other : (i == j) ≡ false → j ≡ i → ⊥
    other ne back = ground arith

pub arrived-small : (p : Place) → arrived p ≤ 1
arrived-small p = ground arith

pub lowering-or : (p : Place) → staying p + lowering p ≤ 1
lowering-or p = ground arith
