-- ===== src/Broker/Start.antt =====
-- A move before the memory is initialised.
use m_kernel.Broker.{
  Access, clear, zero_sense, publish, see_init, reject, enter, arrive_last, arrive, set_sense, pass,
  depart_last, depart, clear_sense, return, outside, checked, raise, wait_set, wait_clear,
  wait_init, boot, cleared, zeroed, leaving, lower, failed, Node, Place, Vault, begins, ends,
}
use m_kernel.Broker.Phases.{
  Phase, booting, arriving, Arriving, IsBooting, Waits, arrived, raising, Every, IsArriving, Leads,
  Booting, Every-moved,
}
use m_kernel.Prelude.{ℕ, ◌≡◌, refl, suc, ◌<◌, false, true, zero, ◌+◌, arith, ◌≢◌, ◌∙◌, ap, sym}
use mathlib.Core.Path.{subst}
use m_kernel.Broker.Steps.{moved}
use m_kernel.Prelude.Int.{pos}
use m_kernel.Broker.Count.{count, count-none}

-- A process that the counter does not count, before the first round.
abbrev Begins : Place → (e l : ℕ) → Type 0
Begins wait_init e l = (e ≡ 0) × (l ≡ 0)
Begins outside e l = (e ≡ 0) × (l ≡ 0)
Begins _ e l = ⊥

Begins-Arriving : (p : Place) (e l : ℕ) → Begins p e l → Arriving 0 p e l
Begins-Arriving boot e l h = absurd h
Begins-Arriving cleared e l h = absurd h
Begins-Arriving zeroed e l h = absurd h
Begins-Arriving wait_init e l h = (refl, h.0, h.1)
Begins-Arriving outside e l h = h
Begins-Arriving checked e l h = absurd h
Begins-Arriving raise e l h = absurd h
Begins-Arriving wait_set e l h = absurd h
Begins-Arriving leaving e l h = absurd h
Begins-Arriving lower e l h = absurd h
Begins-Arriving wait_clear e l h = absurd h
Begins-Arriving failed e l h = absurd h

Begins-counts : (p : Place) (e l : ℕ) → Begins p e l → (arrived p ≡ 0) × (raising p ≡ 0)
Begins-counts boot e l h = absurd h
Begins-counts cleared e l h = absurd h
Begins-counts zeroed e l h = absurd h
Begins-counts wait_init e l h = (refl, refl)
Begins-counts outside e l h = (refl, refl)
Begins-counts checked e l h = absurd h
Begins-counts raise e l h = absurd h
Begins-counts wait_set e l h = absurd h
Begins-counts leaving e l h = absurd h
Begins-counts lower e l h = absurd h
Begins-counts wait_clear e l h = absurd h
Begins-counts failed e l h = absurd h

Waits-Begins : (p : Place) (e l : ℕ) → Waits p e l → Begins p e l
Waits-Begins boot e l h = absurd h
Waits-Begins cleared e l h = absurd h
Waits-Begins zeroed e l h = absurd h
Waits-Begins wait_init e l h = h
Waits-Begins outside e l h = absurd h
Waits-Begins checked e l h = absurd h
Waits-Begins raise e l h = absurd h
Waits-Begins wait_set e l h = absurd h
Waits-Begins leaving e l h = absurd h
Waits-Begins lower e l h = absurd h
Waits-Begins wait_clear e l h = absurd h
Waits-Begins failed e l h = absurd h

module _ (n : ℕ) (s : Node) (a : IsBooting n s) where
  module _ (low : 0 < n) where
    leads : (q : Place) → s.places 0 ≡ q → Leads s.vault q (s.entered 0) (s.left 0)
    leads q at = subst (λ x. Leads s.vault x (s.entered 0) (s.left 0)) at (a.all_booting 0 low)

    -- The leader moves on, and the others wait.
    next_store :
        (q : Place) (m : Vault) (p : Place)
        → m.init ≡ false
        → Leads m p (s.entered 0 + begins q p) (s.left 0 + ends q p)
        → IsBooting n (moved s 0 q m p)
    next_store q m p unset here = record {
      not_init = unset;
      all_booting =
          Every-moved n 0 (Booting s.vault) (Booting m) s m p (s.entered 0 + begins q p)
            (s.left 0 + ends q p) others a.all_booting here;
    }
      where
        others :
            (j : ℕ)
            → j < n
            → j ≢ 0
            → Booting s.vault j (s.places j) (s.entered j) (s.left j)
            → Booting m j (s.places j) (s.entered j) (s.left j)
        others zero lt ne h = absurd (ne refl)
        others (suc j) lt ne h = h

    all_begin :
        s.places 0 ≡ zeroed
        → Every n (moved s 0 zeroed (record s.vault { init = true }) outside) (λ j. Begins)
    all_begin at =
        Every-moved n 0 (Booting s.vault) (λ j. Begins) s (record s.vault { init = true }) outside
          (s.entered 0 + 0) (s.left 0 + 0) others a.all_booting
          (let (b, f, e, l) = leads zeroed at in (omega arith, omega arith))
      where
        others :
            (j : ℕ)
            → j < n
            → j ≢ 0
            → Booting s.vault j (s.places j) (s.entered j) (s.left j)
            → Begins (s.places j) (s.entered j) (s.left j)
        others zero lt ne h = absurd (ne refl)
        others (suc j) lt ne h =
            Waits-Begins (s.places (suc j)) (s.entered (suc j)) (s.left (suc j)) h

    publishes :
        s.places 0 ≡ zeroed
        → IsArriving n 0 (moved s 0 zeroed (record s.vault { init = true }) outside)
    publishes at =
        let t : Node = moved s 0 zeroed (record s.vault { init = true }) outside in
        let (zero_barrier, low_sense, e, l) = leads zeroed at in
        let nobody : count arrived n t.places ≡ 0 =
          count-none arrived n t.places
            (λ j lt. (Begins-counts (t.places j) (t.entered j) (t.left j) (all_begin at j lt)).0) in
        let none : count raising n t.places ≡ 0 =
          count-none raising n t.places
            (λ j lt. (Begins-counts (t.places j) (t.entered j) (t.left j) (all_begin at j lt)).1) in
        record {
          is_init = refl;
          is_low = low_sense;
          counts = zero_barrier ∙ ap pos (sym nobody);
          last_raises = (λ h. absurd (omega arith), λ h. absurd (omega arith));
          one_raises = omega (arith, none);
          all_arriving =
              λ j lt. Begins-Arriving (t.places j) (t.entered j) (t.left j) (all_begin at j lt);
        }

    leader-keeps :
        (q : Place) (m : Vault) (p : Place)
        → s.places 0 ≡ q
        → Access n s.vault q m p
        → Phase n (moved s 0 q m p)
    leader-keeps q m p at clear =
        let (e, l) = leads boot at in
        booting (
          next_store boot (record s.vault { barrier = pos 0 }) cleared a.not_init
            (refl, omega arith, omega arith))
    leader-keeps q m p at zero_sense =
        let (b, e, l) = leads cleared at in
        booting (
          next_store cleared (record s.vault { sense = false }) zeroed a.not_init
            (b, refl, omega arith, omega arith))
    leader-keeps q m p at publish = arriving 0 (publishes at)
    leader-keeps q m p at (see_init h) = absurd (leads wait_init at)
    leader-keeps q m p at (reject h) = absurd (leads outside at)
    leader-keeps q m p at (enter h) = absurd (leads outside at)
    leader-keeps q m p at (arrive_last full) = absurd (leads checked at)
    leader-keeps q m p at (arrive ne) = absurd (leads checked at)
    leader-keeps q m p at set_sense = absurd (leads raise at)
    leader-keeps q m p at (pass h) = absurd (leads wait_set at)
    leader-keeps q m p at (depart_last none) = absurd (leads leaving at)
    leader-keeps q m p at (depart ne) = absurd (leads leaving at)
    leader-keeps q m p at clear_sense = absurd (leads lower at)
    leader-keeps q m p at (return h) = absurd (leads wait_clear at)

  module _ (i : ℕ) (low : suc i < n) where
    waits : (q : Place) → s.places (suc i) ≡ q → Waits q (s.entered (suc i)) (s.left (suc i))
    waits q at =
        subst (λ x. Waits x (s.entered (suc i)) (s.left (suc i))) at (a.all_booting (suc i) low)

    -- The others cannot move.
    others_still :
        (q : Place) (m : Vault) (p : Place) → s.places (suc i) ≡ q → Access n s.vault q m p → ⊥
    others_still q m p at clear = waits boot at
    others_still q m p at zero_sense = waits cleared at
    others_still q m p at publish = waits zeroed at
    others_still q m p at (see_init h) = absurd (cc (h, a.not_init))
    others_still q m p at (reject h) = waits outside at
    others_still q m p at (enter h) = waits outside at
    others_still q m p at (arrive_last full) = waits checked at
    others_still q m p at (arrive ne) = waits checked at
    others_still q m p at set_sense = waits raise at
    others_still q m p at (pass h) = waits wait_set at
    others_still q m p at (depart_last none) = waits leaving at
    others_still q m p at (depart ne) = waits leaving at
    others_still q m p at clear_sense = waits lower at
    others_still q m p at (return h) = waits wait_clear at

  pub booting-keeps :
      (i : ℕ)
      → i < n
      → (q : Place) (m : Vault) (p : Place) → s.places i ≡ q
      → Access n s.vault q m p
      → Phase n (moved s i q m p)
  booting-keeps zero low q m p at acc = leader-keeps low q m p at acc
  booting-keeps (suc i) low q m p at acc = absurd (others_still i low q m p at acc)
