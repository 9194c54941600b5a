-- ===== src/Broker/Progress.antt =====
-- The barrier does not come to a standstill.
use m_kernel.Broker.{
  clear, zero_sense, publish, see_init, arrive, arrive_last, set_sense, pass, depart_last, depart,
  clear_sense, return, outside, checked, raise, wait_set, wait_clear, wait_init, boot, cleared,
  zeroed, leaving, lower, failed, Node, Place, Vault, Access, Reaches,
}
use m_kernel.Broker.Phases.{
  booting, arriving, departing, Leads, IsArriving, IsDeparting, arrived, staying, Departing,
  lowering, raising, Arriving,
}
use m_kernel.Prelude.{
  ℕ, Bool, ◌<◌, ◌≡◌, inl, true, false, inr, ◌≢◌, ◌⊎◌, arith, dec_lt, ap, refl, ℕ_discrete,
}
use m_kernel.Prelude.Int.{ℤ, pos, negsuc}
use m_kernel.Proxy.{minus, plus}
use m_kernel.Broker.Count.{count, count-ge, count-some, count-all, count-none}
use m_kernel.Broker.Safety.{Reaches-Phase}
use m_kernel.Broker.Steps.{magnitude}

-- A process can do its next access.
abbrev pub CanMove : ℕ → Vault → Place → Type 0
CanMove n m q = (m_next : Vault) × (p : Place) × Access n m q m_next p

abbrev set_waits : Place → ℕ
set_waits wait_set = 0
set_waits _ = 1

abbrev clear_waits : Place → ℕ
clear_waits wait_clear = 0
clear_waits _ = 1

is_full : (n : ℕ) (z : ℤ) → (z ≡ pos n) ⊎ (z ≢ pos n)
is_full n (pos c) = elim (ℕ_discrete c n) [
  | yes e ↦ inl (ap pos e)
  | no ne ↦ inr (λ e. ne (ap magnitude e))
]
is_full n (negsuc c) = inr (λ e. absurd (sign e))
  where
    sign : negsuc c ≡ pos n → ⊥
    sign e = absurd (cc)

leaving-moves : (n : ℕ) (m : Vault) → CanMove n m leaving
leaving-moves n m = elim (is_full 0 (minus m.barrier 1)) [
  | inl last ↦ (record m { barrier = minus m.barrier 1 }, lower, depart_last last)
  | inr ne ↦ (record m { barrier = minus m.barrier 1 }, wait_clear, depart ne)
]

checked-moves : (n : ℕ) (m : Vault) → CanMove n m checked
checked-moves n m = elim (is_full n (plus m.barrier 1)) [
  | inl last ↦ (record m { barrier = plus m.barrier 1 }, raise, arrive_last last)
  | inr ne ↦ (record m { barrier = plus m.barrier 1 }, wait_set, arrive ne)
]

leader-moves : (n : ℕ) (m : Vault) (p : Place) (e l : ℕ) → Leads m p e l → CanMove n m p
leader-moves n m boot e l h = (record m { barrier = pos 0 }, cleared, clear)
leader-moves n m cleared e l h = (record m { sense = false }, zeroed, zero_sense)
leader-moves n m zeroed e l h = (record m { init = true }, outside, publish)
leader-moves n m wait_init e l h = absurd h
leader-moves n m outside e l h = absurd h
leader-moves n m checked e l h = absurd h
leader-moves n m raise e l h = absurd h
leader-moves n m wait_set e l h = absurd h
leader-moves n m leaving e l h = absurd h
leader-moves n m lower e l h = absurd h
leader-moves n m wait_clear e l h = absurd h
leader-moves n m failed e l h = absurd h

Arriving-moves :
    (n : ℕ) (m : Vault) (k : ℕ) (p : Place) (e l : ℕ)
    → m.init ≡ true
    → m.sense ≡ false
    → Arriving k p e l
    → p ≢ outside
    → 0 < set_waits p
    → CanMove n m p
Arriving-moves n m k boot e l on flag h inside other = absurd h
Arriving-moves n m k cleared e l on flag h inside other = absurd h
Arriving-moves n m k zeroed e l on flag h inside other = absurd h
Arriving-moves n m k wait_init e l on flag h inside other = (m, outside, see_init on)
Arriving-moves n m k outside e l on flag h inside other = absurd (inside refl)
Arriving-moves n m k checked e l on flag h inside other = checked-moves n m
Arriving-moves n m k raise e l on flag h inside other =
    (record m { sense = true }, wait_set, set_sense)
Arriving-moves n m k wait_set e l on flag h inside other = absurd (omega arith)
Arriving-moves n m k leaving e l on flag h inside other = absurd h
Arriving-moves n m k lower e l on flag h inside other = absurd h
Arriving-moves n m k wait_clear e l on flag h inside other = (m, outside, return flag)
Arriving-moves n m k failed e l on flag h inside other = absurd h

Departing-moves :
    (n : ℕ) (m : Vault) (k : ℕ) (p : Place) (e l : ℕ)
    → m.sense ≡ true
    → Departing k p e l
    → 0 < clear_waits p
    → CanMove n m p
Departing-moves n m k boot e l flag h other = absurd h
Departing-moves n m k cleared e l flag h other = absurd h
Departing-moves n m k zeroed e l flag h other = absurd h
Departing-moves n m k wait_init e l flag h other = absurd h
Departing-moves n m k outside e l flag h other = absurd h
Departing-moves n m k checked e l flag h other = absurd h
Departing-moves n m k raise e l flag h other = absurd h
Departing-moves n m k wait_set e l flag h other = (m, leaving, pass flag)
Departing-moves n m k leaving e l flag h other = leaving-moves n m
Departing-moves n m k lower e l flag h other = (record m { sense = false }, wait_clear, clear_sense)
Departing-moves n m k wait_clear e l flag h other = absurd (omega arith)
Departing-moves n m k failed e l flag h other = absurd h

-- Not all processes wait for a flag that nobody is about to change.
set_waits-or : (p : Place) → set_waits p ≡ 0 → (arrived p ≡ 1) × (raising p ≡ 0)
set_waits-or p h = ground arith

clear_waits-or : (p : Place) → clear_waits p ≡ 0 → (staying p ≡ 0) × (lowering p ≡ 0)
clear_waits-or p h = ground arith

some_arriving : (n k : ℕ) (s : Node) → 0 < n → IsArriving n k s → 0 < count set_waits n s.places
some_arriving n k s some a = elim (dec_lt 0 (count set_waits n s.places)) [
  | yes found ↦ found
  | no none ↦
      let waits : (j : ℕ) → j < n → (arrived (s.places j) ≡ 1) × (raising (s.places j) ≡ 0) =
        λ j low. set_waits-or (s.places j) (omega (arith, count-ge set_waits n j s.places low)) in
      absurd (
        omega (
          arith,
          a.last_raises.0 (count-all arrived n s.places (λ j low. (waits j low).0)),
          count-none raising n s.places (λ j low. (waits j low).1),
        ))
]

some_departing : (n k : ℕ) (s : Node) → 0 < n → IsDeparting n k s → 0 < count clear_waits n s.places
some_departing n k s some a = elim (dec_lt 0 (count clear_waits n s.places)) [
  | yes found ↦ found
  | no none ↦
      let waits : (j : ℕ) → j < n → (staying (s.places j) ≡ 0) × (lowering (s.places j) ≡ 0) =
        λ j low.
          clear_waits-or (s.places j) (omega (arith, count-ge clear_waits n j s.places low)) in
      absurd (
        omega (
          arith,
          a.last_lowers.0 (count-none staying n s.places (λ j low. (waits j low).0)),
          count-none lowering n s.places (λ j low. (waits j low).1),
        ))
]

-- However the processes of a node have come to where they are: if all of them are in init_sync or
-- in sync, one of them can do its next access, so the barrier never deadlocks once all have come.
pub sync-moves :
    (n : ℕ) (barrier : ℤ) (sense : Bool) (s : Node)
    → Reaches n barrier sense s
    → 0 < n
    → ((j : ℕ) → j < n → s.places j ≢ outside)
    → (i : ℕ) × (i < n) × CanMove n s.vault (s.places i)
sync-moves n barrier sense s r some inside = elim (Reaches-Phase n barrier sense s r) [
  | booting a ↦
      (0, some, leader-moves n s.vault (s.places 0) (s.entered 0) (s.left 0) (a.all_booting 0 some))
  | arriving k a ↦
      let (i, low, other) = count-some set_waits n s.places (some_arriving n k s some a) in
      (
        i,
        low,
        Arriving-moves n s.vault k (s.places i) (s.entered i) (s.left i) a.is_init a.is_low
            (a.all_arriving i low) (inside i low) other,
      )
  | departing k a ↦
      let (i, low, other) = count-some clear_waits n s.places (some_departing n k s some a) in
      (
        i,
        low,
        Departing-moves n s.vault k (s.places i) (s.entered i) (s.left i) a.is_high
            (a.all_departing i low) other,
      )
]
