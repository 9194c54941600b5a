-- ===== src/Fifo/Invariant/Moves.antt =====
-- A step of thread `i` inside `push`, between the claim and the release store, keeps the invariant.
use m_kernel.Prelude.{
  ℕ, ◌+◌, ◌^◌, ◌≤◌, ◌<◌, ◌≡◌, refl, sym, ℕ_discrete, arith, some, update_self, update_ne, ◌⊎◌, inl,
  inr,
}
use m_kernel.Types.{TransferCmd}
use m_kernel.Fifo.{Fifo, slot_index, store_word, put_word}
use m_kernel.Fifo.Words.{Stored, Stored-first, put_word-Stored}
use m_kernel.Fifo.System.{
  Pc, write, Move, room, no_room, load_tail, cache_room, cache_wait, store, stored,
}
use m_kernel.Fifo.Invariant.Defs.{claimed, IsFresh}

-- A move changes the cached tail, or stores one word in the slot of its own thread.
pub record Effect (m m' : Fifo) (p p' : Pc) : Type 0 where
  pub same_claim : claimed p' ≡ claimed p
  pub same_head : m'.head ≡ m.head
  pub same_tail : m'.tail ≡ m.tail
  pub same_cpu : m'.cpu_head ≡ m.cpu_head
  pub same_capacity : m'.capacity ≡ m.capacity
  pub cached : m'.tail_cache ≤ m.tail
  pub own : IsFresh m' p'
  pub types : (idx : ℕ) → (m'.triggers idx).cmd_type ≡ (m.triggers idx).cmd_type
  pub others :
      (idx : ℕ)
      → (m'.triggers idx ≡ m.triggers idx)
        ⊎ ((cmd : TransferCmd) × (slot : ℕ) × (claimed p ≡ some (cmd, slot))
            × (slot < m.tail + m.capacity)
            × (idx ≡ slot_index m.capacity slot))

-- A move that stores no word.
only_cache :
    {m : Fifo} {p p' : Pc} (t : ℕ)
    → t ≤ m.tail
    → claimed p' ≡ claimed p
    → IsFresh (record m { tail_cache = t }) p'
    → Effect m (record m { tail_cache = t }) p p'
only_cache t h e f = record {
  same_claim = e;
  same_head = refl;
  same_tail = refl;
  same_cpu = refl;
  same_capacity = refl;
  cached = h;
  own = f;
  types = λ idx. refl;
  others = λ idx. inl refl;
}

module _ {m : Fifo} (wide : m.tail + m.capacity < 2 ^ 64) (cached : m.tail_cache ≤ m.tail) where
  store-Effect :
      (cmd : TransferCmd) (slot wi : ℕ)
      → wi < 6
      → IsFresh m (write cmd slot wi)
      → Effect m (store_word m slot cmd wi) (write cmd slot wi) (write cmd slot (wi + 1))
  store-Effect cmd slot wi g f = record {
    same_claim = refl;
    same_head = refl;
    same_tail = refl;
    same_cpu = refl;
    same_capacity = refl;
    cached = cached;
    own = (f.0, omega arith, omega arith, rw update_self step.0);
    types = λ idx. ground (arith, step);
    others = λ idx. elim (ℕ_discrete idx (slot_index m.capacity slot)) [
      | yes e ↦ inr (cmd, slot, refl, f.0, e)
      | no ne ↦ inl (update_ne m.triggers _ idx _ (λ e. ne (sym e)))
    ];
  }
    where
      here : TransferCmd
      here = m.triggers (slot_index m.capacity slot)

      step :
          Stored (wi + 1) cmd (put_word wi cmd here)
          × ((put_word wi cmd here).cmd_type ≡ here.cmd_type)
      step = put_word-Stored wi cmd here f.1 g f.3

  pub Move-Effect : {p p' : Pc} {m' : Fifo} → Move m p m' p' → IsFresh m p → Effect m m' p p'
  Move-Effect (room {cmd} {slot} g) f =
      only_cache m.tail_cache cached refl
        (omega arith, omega arith, omega arith, Stored-first cmd _)
  Move-Effect (no_room g) f = only_cache m.tail_cache cached refl tt
  Move-Effect load_tail f = only_cache m.tail_cache cached refl (omega arith)
  Move-Effect (cache_room {cmd} {slot} {t} g) f =
      only_cache t f refl (omega arith, omega arith, omega arith, Stored-first cmd _)
  Move-Effect (cache_wait {cmd} {slot} {t} g) f = only_cache t f refl tt
  Move-Effect (store {cmd} {slot} {wi} g) f = store-Effect cmd slot wi g f
  Move-Effect (stored e) f = only_cache m.tail_cache cached refl (f.0, rw e at f.3)
