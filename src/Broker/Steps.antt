-- ===== src/Broker/Steps.antt =====
-- A move of one process, and how it changes a count.
use m_kernel.Prelude.{ℕ, ◌<◌, ◌≡◌, update, ◌+◌, suc}
use m_kernel.Broker.{Node, Place, Vault, begins, ends}
use m_kernel.Broker.Count.{count, count-update}
use mathlib.Core.Path.{subst}
use m_kernel.Prelude.Int.{ℤ, pos, negsuc}

-- The number without its sign.
abbrev pub magnitude : ℤ → ℕ
magnitude (pos n) = n
magnitude (negsuc n) = suc n

-- The node after process `i`, which has stood at `q`, has moved.
abbrev pub moved : Node → (i : ℕ) → (q : Place) → Vault → Place → Node
moved s i q m p = record {
  vault = m;
  places = update s.places i p;
  entered = update s.entered i (s.entered i + begins q p);
  left = update s.left i (s.left i + ends q p);
}

module _ (n i : ℕ) (s : Node) (low : i < n) where
  -- How a count changes.
  pub counted :
      (f : Place → ℕ) (q p : Place)
      → s.places i ≡ q
      → count f n (update s.places i p) + f q ≡ count f n s.places + f p
  counted f q p at =
      subst (λ x. count f n (update s.places i p) + f x ≡ count f n s.places + f p) at
        (count-update f n i s.places p low)
