-- ===== src/Broker/Departing.antt =====
-- A move while `sense` is 1.
use m_kernel.Broker.{
  Access, clear, zero_sense, publish, see_init, reject, enter, arrive_last, arrive, set_sense, pass,
  depart_last, depart, clear_sense, return, outside, checked, raise, wait_set, wait_clear,
  wait_init, boot, cleared, zeroed, leaving, lower, failed, Node, Place, Vault, begins, ends,
}
use m_kernel.Broker.Phases.{
  Phase, arriving, departing, Arriving, Departing, arrived, IsDeparting, raising, staying, Every,
  IsArriving, lowering, Every-moved,
}
use m_kernel.Prelude.{
  ℕ, ◌<◌, ◌≡◌, suc, ap, refl, ◌≤◌, arith, false, update, ℕ_discrete, ◌+◌, ◌-◌, ◌↔◌, ◌∙◌, sym,
  update_ne,
}
use m_kernel.Broker.Count.{count, count-ge, count-none}
use mathlib.Core.Path.{subst}
use m_kernel.Proxy.{minus}
use m_kernel.Broker.Steps.{moved, counted, magnitude}
use m_kernel.Prelude.Int.{pos}

-- All processes wait in the loop of phase 2.
abbrev AllClear : (k : ℕ) → Place → (e l : ℕ) → Type 0
AllClear k wait_clear e l = (e ≡ suc k) × (l ≡ k)
AllClear k _ e l = ⊥

AllClear-Arriving : (k : ℕ) (p : Place) (e l : ℕ) → AllClear k p e l → Arriving (suc k) p e l
AllClear-Arriving k wait_clear e l h = (h.0, ap suc h.1)
AllClear-Arriving k boot e l h = absurd h
AllClear-Arriving k cleared e l h = absurd h
AllClear-Arriving k zeroed e l h = absurd h
AllClear-Arriving k wait_init e l h = absurd h
AllClear-Arriving k outside e l h = absurd h
AllClear-Arriving k checked e l h = absurd h
AllClear-Arriving k raise e l h = absurd h
AllClear-Arriving k wait_set e l h = absurd h
AllClear-Arriving k leaving e l h = absurd h
AllClear-Arriving k lower e l h = absurd h
AllClear-Arriving k failed e l h = absurd h

AllClear-counts :
    (k : ℕ) (p : Place) (e l : ℕ) → AllClear k p e l → (arrived p ≡ 0) × (raising p ≡ 0)
AllClear-counts k wait_clear e l h = (refl, refl)
AllClear-counts k boot e l h = absurd h
AllClear-counts k cleared e l h = absurd h
AllClear-counts k zeroed e l h = absurd h
AllClear-counts k wait_init e l h = absurd h
AllClear-counts k outside e l h = absurd h
AllClear-counts k checked e l h = absurd h
AllClear-counts k raise e l h = absurd h
AllClear-counts k wait_set e l h = absurd h
AllClear-counts k leaving e l h = absurd h
AllClear-counts k lower e l h = absurd h
AllClear-counts k failed e l h = absurd h

-- Whoever is no longer counted and does not clear the flag waits for it.
Departing-AllClear :
    (k : ℕ) (p : Place) (e l : ℕ)
    → Departing k p e l
    → staying p ≡ 0
    → lowering p ≡ 0
    → AllClear k p e l
Departing-AllClear k wait_clear e l h gone none = h
Departing-AllClear k wait_set e l h gone none = absurd (omega arith)
Departing-AllClear k leaving e l h gone none = absurd (omega arith)
Departing-AllClear k lower e l h gone none = absurd (omega arith)
Departing-AllClear k boot e l h gone none = absurd h
Departing-AllClear k cleared e l h gone none = absurd h
Departing-AllClear k zeroed e l h gone none = absurd h
Departing-AllClear k wait_init e l h gone none = absurd h
Departing-AllClear k outside e l h gone none = absurd h
Departing-AllClear k checked e l h gone none = absurd h
Departing-AllClear k raise e l h gone none = absurd h
Departing-AllClear k failed e l h gone none = absurd h

module _ (n i : ℕ) (s : Node) (low : i < n) where
  module _ (k : ℕ) (a : IsDeparting n k s) where
    round_here : (q : Place) → s.places i ≡ q → Departing k q (s.entered i) (s.left i)
    round_here q at = subst (λ x. Departing k x (s.entered i) (s.left i)) at (a.all_departing i low)

    round_stays :
        (q : Place) (m : Vault) (p : Place)
        → Departing k p (s.entered i + begins q p) (s.left i + ends q p)
        → Every n (moved s i q m p) (λ j. Departing k)
    round_stays q m p here =
        Every-moved n i (λ j. Departing k) (λ j. Departing k) s m p (s.entered i + begins q p)
          (s.left i + ends q p) (λ j lt ne h. h) a.all_departing here

    -- A process that has seen the flag stays counted.
    sees : s.places i ≡ wait_set → IsDeparting n k (moved s i wait_set s.vault leaving)
    sees at =
        let same : count staying n (update s.places i leaving) ≡ count staying n s.places =
          omega (arith, counted n i s low staying wait_set leaving at) in
        let same_lowering : count lowering n (update s.places i leaving)
            ≡ count lowering n s.places =
          omega (arith, counted n i s low lowering wait_set leaving at) in
        let (e, l) = round_here wait_set at in
        record {
          is_init = a.is_init;
          is_high = a.is_high;
          counts = a.counts ∙ ap pos (sym same);
          last_lowers = (
            λ h. same_lowering ∙ a.last_lowers.0 (sym same ∙ h),
            λ h. same ∙ a.last_lowers.1 (sym same_lowering ∙ h),
          );
          one_lowers = omega (arith, a.one_lowers);
          all_departing = round_stays wait_set s.vault leaving (omega arith, omega arith);
        }

    some_stay : s.places i ≡ leaving → 1 ≤ count staying n s.places
    some_stay at = omega (arith, count-ge staying n i s.places low, ap staying at)

    none_lowers : s.places i ≡ leaving → count lowering n s.places ≡ 0
    none_lowers at = elim (ℕ_discrete (count lowering n s.places) 1) [
      | yes one ↦ absurd (omega (arith, some_stay at, a.last_lowers.1 one))
      | no ne ↦ omega (arith, a.one_lowers)
    ]

    minus_one : (c : ℕ) → 1 ≤ c → minus (pos c) 1 ≡ pos (c - 1)
    unfolding minus
    minus_one c h = ground arith

    next_down : s.places i ≡ leaving → minus s.vault.barrier 1 ≡ pos (count staying n s.places - 1)
    next_down at =
        ap (λ b. minus b 1) a.counts ∙ minus_one (count staying n s.places) (some_stay at)

    -- A process departs, and is the last or not.
    goes_out :
        (p : Place)
        → s.places i ≡ leaving
        → staying p ≡ 0
        → ((count staying n s.places - 1 ≡ 0) ↔ (lowering p ≡ 1))
        → lowering p ≤ 1
        → Departing k p (s.entered i + begins leaving p) (s.left i + ends leaving p)
        → IsDeparting n k
            (moved s i leaving (record s.vault { barrier = minus s.vault.barrier 1 }) p)
    goes_out p at gone last small here =
        let fewer : count staying n (update s.places i p) ≡ count staying n s.places - 1 =
          omega (arith, counted n i s low staying leaving p at, gone, some_stay at) in
        let lowers : count lowering n (update s.places i p) ≡ lowering p =
          omega (arith, counted n i s low lowering leaving p at, none_lowers at) in
        record {
          is_init = a.is_init;
          is_high = a.is_high;
          counts = next_down at ∙ ap pos (sym fewer);
          last_lowers =
              (λ h. lowers ∙ last.0 (sym fewer ∙ h), λ h. fewer ∙ last.1 (sym lowers ∙ h));
          one_lowers = omega (arith, lowers, small);
          all_departing =
              round_stays leaving (record s.vault { barrier = minus s.vault.barrier 1 }) p here;
        }

    one_lowers_now : s.places i ≡ lower → count lowering n s.places ≡ 1
    one_lowers_now at =
        omega (arith, a.one_lowers, count-ge lowering n i s.places low, ap lowering at)

    -- The last process clears the flag: then all wait for it.
    all_clear :
        s.places i ≡ lower
        → Every n (moved s i lower (record s.vault { sense = false }) wait_clear) (λ j. AllClear k)
    all_clear at =
        let one : count lowering n s.places ≡ 1 = one_lowers_now at in
        let none : count lowering n (update s.places i wait_clear) ≡ 0 =
          omega (arith, one, counted n i s low lowering lower wait_clear at) in
        Every-moved n i (λ j. Departing k) (λ j. AllClear k) s (record s.vault { sense = false })
          wait_clear (s.entered i + 0) (s.left i + 0)
          (λ j lt ne h.
            Departing-AllClear k (s.places j) (s.entered j) (s.left j) h
              (omega (arith, count-ge staying n j s.places lt, a.last_lowers.1 one))
              (omega (
                arith,
                none,
                count-ge lowering n j (update s.places i wait_clear) lt,
                ap lowering (update_ne s.places i j wait_clear (λ back. ne (sym back))),
              )))
          a.all_departing
          (omega (arith, (round_here lower at).0), omega (arith, (round_here lower at).1))

    clears :
        s.places i ≡ lower
        → IsArriving n (suc k) (moved s i lower (record s.vault { sense = false }) wait_clear)
    clears at =
        let t : Node = moved s i lower (record s.vault { sense = false }) wait_clear in
        let nobody : count arrived n t.places ≡ 0 = count-none arrived n t.places (λ j lt.
          (AllClear-counts k (t.places j) (t.entered j) (t.left j) (all_clear at j lt)).0) in
        let none : count raising n t.places ≡ 0 = count-none raising n t.places (λ j lt.
          (AllClear-counts k (t.places j) (t.entered j) (t.left j) (all_clear at j lt)).1) in
        record {
          is_init = a.is_init;
          is_low = refl;
          counts = a.counts ∙ ap pos (a.last_lowers.1 (one_lowers_now at) ∙ sym nobody);
          last_raises = (λ h. absurd (omega arith), λ h. absurd (omega arith));
          one_raises = omega (arith, none);
          all_arriving =
              λ j lt. AllClear-Arriving k (t.places j) (t.entered j) (t.left j) (all_clear at j lt);
        }

    pub departing-keeps :
        (q : Place) (m : Vault) (p : Place)
        → s.places i ≡ q
        → Access n s.vault q m p
        → Phase n (moved s i q m p)
    departing-keeps q m p at clear = absurd (round_here boot at)
    departing-keeps q m p at zero_sense = absurd (round_here cleared at)
    departing-keeps q m p at publish = absurd (round_here zeroed at)
    departing-keeps q m p at (see_init h) = absurd (round_here wait_init at)
    departing-keeps q m p at (reject h) = absurd (round_here outside at)
    departing-keeps q m p at (enter h) = absurd (round_here outside at)
    departing-keeps q m p at (arrive_last full) = absurd (round_here checked at)
    departing-keeps q m p at (arrive ne) = absurd (round_here checked at)
    departing-keeps q m p at set_sense = absurd (round_here raise at)
    departing-keeps q m p at (pass h) = departing k (sees at)
    departing-keeps q m p at (depart_last none) =
        let (e, l) = round_here leaving at in
        let last : count staying n s.places - 1 ≡ 0 = ap magnitude (sym (next_down at) ∙ none) in
        departing k
          (goes_out lower at refl (λ x. refl, λ x. last) (omega arith) (omega arith, omega arith))
    departing-keeps q m p at (depart ne) =
        let (e, l) = round_here leaving at in
        departing k (
          goes_out wait_clear at refl
            (λ none. absurd (ne (next_down at ∙ ap pos none)), λ x. absurd (omega arith))
            (omega arith) (omega arith, omega arith))
    departing-keeps q m p at clear_sense = arriving (suc k) (clears at)
    departing-keeps q m p at (return h) = absurd (cc (h, a.is_high))
