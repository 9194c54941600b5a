-- ===== src/Broker/Arriving.antt =====
-- A move while `sense` is 0.
use m_kernel.Broker.{
  Access, clear, zero_sense, publish, see_init, reject, enter, arrive_last, arrive, set_sense, pass,
  depart_last, depart, clear_sense, return, outside, checked, raise, wait_set, wait_clear,
  wait_init, boot, cleared, zeroed, leaving, lower, failed, Node, Place, Vault, begins, ends,
}
use m_kernel.Broker.Phases.{
  Phase, arriving, departing, Arriving, Departing, staying, IsArriving, arrived, lowering, Every,
  IsDeparting, raising, arrived-small, Every-moved,
}
use m_kernel.Prelude.{
  ℕ, ◌<◌, ◌≡◌, suc, refl, arith, ℕ_discrete, ◌+◌, ◌≢◌, ap, true, ◌↔◌, ◌∙◌, ◌≤◌, sym, update,
  update_ne,
}
use m_kernel.Broker.Count.{count, count-full, count-ge, count-all, count-none}
use m_kernel.Proxy.{plus}
use mathlib.Core.Path.{subst}
use m_kernel.Prelude.Int.{pos}
use m_kernel.Broker.Steps.{moved, counted, magnitude}

-- All processes wait in the loop of phase 1.
abbrev AllSet : (k : ℕ) → Place → (e l : ℕ) → Type 0
AllSet k wait_set e l = (e ≡ suc k) × (l ≡ k)
AllSet k _ e l = ⊥

AllSet-Departing : (k : ℕ) (p : Place) (e l : ℕ) → AllSet k p e l → Departing k p e l
AllSet-Departing k wait_set e l h = h
AllSet-Departing k boot e l h = absurd h
AllSet-Departing k cleared e l h = absurd h
AllSet-Departing k zeroed e l h = absurd h
AllSet-Departing k wait_init e l h = absurd h
AllSet-Departing k outside e l h = absurd h
AllSet-Departing k checked e l h = absurd h
AllSet-Departing k raise e l h = absurd h
AllSet-Departing k leaving e l h = absurd h
AllSet-Departing k lower e l h = absurd h
AllSet-Departing k wait_clear e l h = absurd h
AllSet-Departing k failed e l h = absurd h

AllSet-counts : (k : ℕ) (p : Place) (e l : ℕ) → AllSet k p e l → (staying p ≡ 1) × (lowering p ≡ 0)
AllSet-counts k wait_set e l h = (refl, refl)
AllSet-counts k boot e l h = absurd h
AllSet-counts k cleared e l h = absurd h
AllSet-counts k zeroed e l h = absurd h
AllSet-counts k wait_init e l h = absurd h
AllSet-counts k outside e l h = absurd h
AllSet-counts k checked e l h = absurd h
AllSet-counts k raise e l h = absurd h
AllSet-counts k leaving e l h = absurd h
AllSet-counts k lower e l h = absurd h
AllSet-counts k wait_clear e l h = absurd h
AllSet-counts k failed e l h = absurd h

-- Whoever is counted and does not raise the flag waits for it.
Arriving-AllSet :
    (k : ℕ) (p : Place) (e l : ℕ)
    → Arriving k p e l
    → arrived p ≡ 1
    → raising p ≡ 0
    → AllSet k p e l
Arriving-AllSet k wait_set e l h one none = h
Arriving-AllSet k raise e l h one none = absurd (omega arith)
Arriving-AllSet k boot e l h one none = absurd h
Arriving-AllSet k cleared e l h one none = absurd h
Arriving-AllSet k zeroed e l h one none = absurd h
Arriving-AllSet k wait_init e l h one none = absurd (omega arith)
Arriving-AllSet k outside e l h one none = absurd (omega arith)
Arriving-AllSet k checked e l h one none = absurd (omega arith)
Arriving-AllSet k leaving e l h one none = absurd h
Arriving-AllSet k lower e l h one none = absurd h
Arriving-AllSet k wait_clear e l h one none = absurd (omega arith)
Arriving-AllSet k failed e l h one none = absurd h

module _ (n i : ℕ) (s : Node) (low : i < n) where
  module _ (k : ℕ) (a : IsArriving n k s) where
    round_here : (q : Place) → s.places i ≡ q → Arriving k q (s.entered i) (s.left i)
    round_here q at = subst (λ x. Arriving k x (s.entered i) (s.left i)) at (a.all_arriving i low)

    -- The others stay as they are.
    round_stays :
        (q : Place) (m : Vault) (p : Place)
        → Arriving k p (s.entered i + begins q p) (s.left i + ends q p)
        → Every n (moved s i q m p) (λ j. Arriving k)
    round_stays q m p here =
        Every-moved n i (λ j. Arriving k) (λ j. Arriving k) s m p (s.entered i + begins q p)
          (s.left i + ends q p) (λ j lt ne h. h) a.all_arriving here

    -- A process that the counter does not count goes where it does not count it either.
    stays_out :
        (q p : Place)
        → s.places i ≡ q
        → arrived q ≡ 0
        → raising q ≡ 0
        → arrived p ≡ 0
        → raising p ≡ 0
        → Arriving k p (s.entered i + begins q p) (s.left i + ends q p)
        → IsArriving n k (moved s i q s.vault p)
    stays_out q p at no_count no_raise no_count_next no_raise_next here =
        let same : count arrived n (update s.places i p) ≡ count arrived n s.places =
          omega (arith, counted n i s low arrived q p at) in
        let same_raising : count raising n (update s.places i p) ≡ count raising n s.places =
          omega (arith, counted n i s low raising q p at) in
        record {
          is_init = a.is_init;
          is_low = a.is_low;
          counts = a.counts ∙ ap pos (sym same);
          last_raises = (
            λ h. same_raising ∙ a.last_raises.0 (sym same ∙ h),
            λ h. same ∙ a.last_raises.1 (sym same_raising ∙ h),
          );
          one_raises = omega (arith, a.one_raises);
          all_arriving = round_stays q s.vault p here;
        }

    not_full : s.places i ≡ checked → count arrived n s.places ≢ n
    not_full at full =
        let one : arrived (s.places i) ≡ 1 =
          count-full arrived arrived-small n i s.places full low in
        absurd (omega (arith, sym (ap arrived at) ∙ one))

    none_raises : s.places i ≡ checked → count raising n s.places ≡ 0
    none_raises at = elim (ℕ_discrete (count raising n s.places) 1) [
      | yes one ↦ absurd (not_full at (a.last_raises.1 one))
      | no ne ↦ omega (arith, a.one_raises)
    ]

    plus_one : (c : ℕ) → plus (pos c) 1 ≡ pos (c + 1)
    unfolding plus
    plus_one c = refl

    next_counter : plus s.vault.barrier 1 ≡ pos (count arrived n s.places + 1)
    next_counter = ap (λ b. plus b 1) a.counts ∙ plus_one (count arrived n s.places)

    -- A process arrives, and is the last or not.
    comes_in :
        (p : Place)
        → s.places i ≡ checked
        → arrived p ≡ 1
        → ((count arrived n s.places + 1 ≡ n) ↔ (raising p ≡ 1))
        → raising p ≤ 1
        → Arriving k p (s.entered i + begins checked p) (s.left i + ends checked p)
        → IsArriving n k (moved s i checked (record s.vault { barrier = plus s.vault.barrier 1 }) p)
    comes_in p at one last small here =
        let more : count arrived n (update s.places i p) ≡ count arrived n s.places + 1 =
          omega (arith, counted n i s low arrived checked p at, one) in
        let raises : count raising n (update s.places i p) ≡ raising p =
          omega (arith, counted n i s low raising checked p at, none_raises at) in
        record {
          is_init = a.is_init;
          is_low = a.is_low;
          counts = next_counter ∙ ap pos (sym more);
          last_raises = (λ h. raises ∙ last.0 (sym more ∙ h), λ h. more ∙ last.1 (sym raises ∙ h));
          one_raises = omega (arith, raises, small);
          all_arriving =
              round_stays checked (record s.vault { barrier = plus s.vault.barrier 1 }) p here;
        }

    -- The last process sets the flag: then all wait for it.
    all_set :
        s.places i ≡ raise
        → Every n (moved s i raise (record s.vault { sense = true }) wait_set) (λ j. AllSet k)
    all_set at =
        let one : count raising n s.places ≡ 1 =
          omega (arith, a.one_raises, count-ge raising n i s.places low, ap raising at) in
        let none : count raising n (update s.places i wait_set) ≡ 0 =
          omega (arith, one, counted n i s low raising raise wait_set at) in
        Every-moved n i (λ j. Arriving k) (λ j. AllSet k) s (record s.vault { sense = true })
          wait_set (s.entered i + 0) (s.left i + 0)
          (λ j lt ne h.
            Arriving-AllSet k (s.places j) (s.entered j) (s.left j) h
              (count-full arrived arrived-small n j s.places (a.last_raises.1 one) lt)
              (omega (
                arith,
                none,
                count-ge raising n j (update s.places i wait_set) lt,
                ap raising (update_ne s.places i j wait_set (λ back. ne (sym back))),
              )))
          a.all_arriving
          (omega (arith, (round_here raise at).0), omega (arith, (round_here raise at).1))

    sets :
        s.places i ≡ raise
        → IsDeparting n k (moved s i raise (record s.vault { sense = true }) wait_set)
    sets at =
        let t : Node = moved s i raise (record s.vault { sense = true }) wait_set in
        let one : count raising n s.places ≡ 1 =
          omega (arith, a.one_raises, count-ge raising n i s.places low, ap raising at) in
        let full : count staying n t.places ≡ n =
          count-all staying n t.places
            (λ j lt. (AllSet-counts k (t.places j) (t.entered j) (t.left j) (all_set at j lt)).0) in
        let none : count lowering n t.places ≡ 0 =
          count-none lowering n t.places
            (λ j lt. (AllSet-counts k (t.places j) (t.entered j) (t.left j) (all_set at j lt)).1) in
        record {
          is_init = a.is_init;
          is_high = refl;
          counts = a.counts ∙ ap pos (a.last_raises.1 one ∙ sym full);
          last_lowers = (λ h. absurd (omega arith), λ h. absurd (omega arith));
          one_lowers = omega (arith, none);
          all_departing =
              λ j lt. AllSet-Departing k (t.places j) (t.entered j) (t.left j) (all_set at j lt);
        }

    pub arriving-keeps :
        (q : Place) (m : Vault) (p : Place)
        → s.places i ≡ q
        → Access n s.vault q m p
        → Phase n (moved s i q m p)
    arriving-keeps q m p at clear = absurd (round_here boot at)
    arriving-keeps q m p at zero_sense = absurd (round_here cleared at)
    arriving-keeps q m p at publish = absurd (round_here zeroed at)
    arriving-keeps q m p at (see_init h) =
        let (first, none, back) = round_here wait_init at in
        arriving k (stays_out wait_init outside at refl refl refl refl (omega arith, omega arith))
    arriving-keeps q m p at (reject h) = absurd (cc (h, a.is_init))
    arriving-keeps q m p at (enter h) =
        let (e, l) = round_here outside at in
        arriving k (stays_out outside checked at refl refl refl refl (omega arith, omega arith))
    arriving-keeps q m p at (arrive_last full) =
        let (e, l) = round_here checked at in
        let last : count arrived n s.places + 1 ≡ n = ap magnitude (sym next_counter ∙ full) in
        arriving k
          (comes_in raise at refl (λ x. refl, λ x. last) (omega arith) (omega arith, omega arith))
    arriving-keeps q m p at (arrive ne) =
        let (e, l) = round_here checked at in
        arriving k (
          comes_in wait_set at refl
            (λ full. absurd (ne (next_counter ∙ ap pos full)), λ x. absurd (omega arith))
            (omega arith) (omega arith, omega arith))
    arriving-keeps q m p at set_sense = departing k (sets at)
    arriving-keeps q m p at (pass h) = absurd (cc (h, a.is_low))
    arriving-keeps q m p at (depart_last h) = absurd (round_here leaving at)
    arriving-keeps q m p at (depart h) = absurd (round_here leaving at)
    arriving-keeps q m p at clear_sense = absurd (round_here lower at)
    arriving-keeps q m p at (return h) =
        let (e, l) = round_here wait_clear at in
        arriving k (stays_out wait_clear outside at refl refl refl refl (omega arith, omega arith))
