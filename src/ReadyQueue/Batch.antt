-- ===== src/ReadyQueue/Batch.antt =====
-- A batch is the pushes of its items one after another, and what the GPU reads in it.
use m_kernel.ReadyQueue.{ReadyQueue, push, push_batch, write_batch, slot_of}
use m_kernel.Prelude.{
  refl, ◌≡◌, List, ℕ, ap, ◌+◌, ◌<◌, ◌∷◌, [], u32, ◌^◌, ◌∙◌, arith, mod-lt, update, IsPow2, ◌≤◌,
  length, ◌%◌, ◌≢◌, get_elem?, mod-ne, update_ne, some, sym, suc, zero, update_self, bit_and_mask,
  mod-narrow, exponent-le,
}

-- One push for each item, in their order.
unfoldable pub push_each : ReadyQueue → List ℕ → ReadyQueue
push_each rq [] = rq
push_each rq (w ∷ work_ids) = push_each (push rq w) work_ids

write_batch-shift :
    (capacity t : ℕ) (work_ids : List ℕ) (i : ℕ) (entries : ℕ → ℕ)
    → write_batch capacity t work_ids (i + 1) entries
      ≡ write_batch capacity (u32 (t + 1)) work_ids i entries
unfolding write_batch
write_batch-shift capacity t [] i entries = refl
write_batch-shift capacity t (w ∷ work_ids) i entries =
    write_batch-shift capacity t work_ids (i + 1)
      (update entries (slot_of capacity (u32 (t + (i + 1)))) w)
    ∙ ap
        (λ place.
          write_batch capacity (u32 (t + 1)) work_ids (i + 1)
            (update entries (slot_of capacity place) w))
        place
  where
    place : u32 (t + (i + 1)) ≡ u32 (u32 (t + 1) + i)
    place = omega arith

-- The queue `rq` with new entries and tails.
abbrev moved : ReadyQueue → (ℕ → ℕ) → ℕ → ℕ → ReadyQueue
moved rq written shown place = record rq { entries = written; tail = shown; local_tail = place }

moved-eq :
    (rq : ReadyQueue) {e e' : ℕ → ℕ} {s s' p p' : ℕ}
    → e ≡ e'
    → s ≡ s'
    → p ≡ p'
    → moved rq e s p ≡ moved rq e' s' p'
moved-eq rq {e} {e'} {s} {s'} {p} {p'} h l k =
    ap (λ x. moved rq x s p) h ∙ ap (λ x. moved rq e' x p) l ∙ ap (moved rq e' s') k

-- The first item of a batch may be pushed by itself.
push_batch-push :
    (rq : ReadyQueue) (w : ℕ) (work_ids : List ℕ)
    → rq.local_tail < 2 ^ 32
    → push_batch rq (w ∷ work_ids) ≡ push_batch (push rq w) work_ids
unfolding push_batch write_batch push
push_batch-push rq w work_ids h =
    moved-eq rq
      (ap
          (λ place.
            write_batch rq.capacity rq.local_tail work_ids (0 + 1)
              (update rq.entries (slot_of rq.capacity place) w))
          same
        ∙ write_batch-shift rq.capacity rq.local_tail work_ids 0
            (update rq.entries (slot_of rq.capacity rq.local_tail) w))
      (omega arith) (omega arith)
  where
    same : u32 (rq.local_tail + 0) ≡ rq.local_tail
    same = omega arith

-- A batch leaves the queue as pushes of its items one by one do, for a tail that is a 32-bit word
-- and that the GPU has been shown.
pub push_batch-push_each :
    (rq : ReadyQueue) (work_ids : List ℕ)
    → rq.local_tail < 2 ^ 32
    → rq.tail ≡ rq.local_tail
    → push_batch rq work_ids ≡ push_each rq work_ids
unfolding push_batch push_each write_batch push
push_batch-push_each rq [] h e =
    moved-eq rq {e = rq.entries} {e' = rq.entries} refl (omega arith) (omega arith)
push_batch-push_each rq (w ∷ work_ids) h e =
    push_batch-push rq w work_ids h
    ∙ push_batch-push_each (push rq w) work_ids (mod-lt (rq.local_tail + 1) (omega arith)) refl

-- The place of an index of a batch, as a remainder.
slot_of-mod :
    (capacity t i : ℕ)
    → IsPow2 capacity
    → capacity ≤ 2 ^ 32
    → slot_of capacity (u32 (t + i)) ≡ (t + i) % capacity
slot_of-mod capacity t i (k, e) fits =
    rw e (bit_and_mask k (u32 (t + i)) ∙ mod-narrow k 32 (t + i) (exponent-le k 32 (rw e at fits)))

slot_of-ne :
    (capacity t i j : ℕ)
    → IsPow2 capacity
    → capacity ≤ 2 ^ 32
    → i < j
    → j < i + capacity
    → slot_of capacity (u32 (t + j)) ≢ slot_of capacity (u32 (t + i))
slot_of-ne capacity t i j pow fits lt near q =
    mod-ne (t + i) (t + j) capacity (omega arith) (omega arith)
      (sym (slot_of-mod capacity t i pow fits) ∙ sym q ∙ slot_of-mod capacity t j pow fits)

write_batch-before :
    (capacity t : ℕ) (work_ids : List ℕ) (i j : ℕ) (entries : ℕ → ℕ)
    → IsPow2 capacity
    → capacity ≤ 2 ^ 32
    → j < i
    → i + length work_ids ≤ j + capacity
    → write_batch capacity t work_ids i entries (slot_of capacity (u32 (t + j)))
      ≡ entries (slot_of capacity (u32 (t + j)))
unfolding write_batch
write_batch-before capacity t [] i j entries pow fits lt room = refl
write_batch-before capacity t (w ∷ work_ids) i j entries pow fits lt room =
    write_batch-before capacity t work_ids (i + 1) j _ pow fits (omega arith) (omega arith)
    ∙ update_ne entries _ _ w (slot_of-ne capacity t j i pow fits lt (omega arith))

write_batch-reads :
    (capacity t : ℕ) (work_ids : List ℕ) (i k j : ℕ) (entries : ℕ → ℕ) (w : ℕ)
    → IsPow2 capacity
    → capacity ≤ 2 ^ 32
    → length work_ids ≤ capacity
    → get_elem? work_ids k ≡ some w
    → j ≡ i + k
    → write_batch capacity t work_ids i entries (slot_of capacity (u32 (t + j))) ≡ w
unfolding write_batch
write_batch-reads capacity t [] i k j entries w pow fits room e q = absurd (cc)
write_batch-reads capacity t (v ∷ work_ids) i zero j entries w pow fits room e q = rw (here) (
    write_batch-before capacity t work_ids (i + 1) i _ pow fits (omega arith) (omega arith)
    ∙ update_self entries _ v
    ∙ ground arith)
  where
    here : j ≡ i
    here = omega arith
write_batch-reads capacity t (v ∷ work_ids) i (suc k) j entries w pow fits room e q =
    write_batch-reads capacity t work_ids (i + 1) k j _ w pow fits (omega arith) e (omega arith)

-- After a batch of at most a ring of items, in a ring whose capacity is a power of two, the GPU
-- finds the item `k` of the batch in the slot `k` places beyond the old tail.
pub push_batch-reads :
    (rq : ReadyQueue) (work_ids : List ℕ) (k w : ℕ)
    → IsPow2 rq.capacity
    → rq.capacity ≤ 2 ^ 32
    → length work_ids ≤ rq.capacity
    → get_elem? work_ids k ≡ some w
    → (push_batch rq work_ids).entries (slot_of rq.capacity (u32 (rq.local_tail + k))) ≡ w
unfolding push_batch
push_batch-reads rq work_ids k w pow fits room e =
    write_batch-reads rq.capacity rq.local_tail work_ids 0 k k rq.entries w pow fits room e
      (omega arith)
