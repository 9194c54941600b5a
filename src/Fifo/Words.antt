-- ===== src/Fifo/Words.antt =====
-- The words that a thread has stored so far, and the indices that slots share.
use m_kernel.Prelude.{ℕ, zero, suc, ◌+◌, ◌%◌, ◌<◌, ◌≡◌, ◌≢◌, arith, bit_and_mask, mod-ne, IsPow2}
use native.Mathlib.Nat.{add-mod_right, one-le-pow}
use m_kernel.Types.{TransferCmd}
use m_kernel.Fifo.{slot_index, put_word}

pub slot_index-mod :
    {capacity : ℕ} (slot : ℕ) → IsPow2 capacity → slot_index capacity slot ≡ slot % capacity
unfolding slot_index
slot_index-mod slot (k, e) = rw e (bit_and_mask k slot)

-- Two slots less than a ring apart lie at different indices.
pub slot_index-ne :
    {capacity : ℕ} (a b : ℕ)
    → IsPow2 capacity
    → a < b
    → b < a + capacity
    → slot_index capacity a ≢ slot_index capacity b
slot_index-ne {capacity} a b pow lt near =
    rw (slot_index-mod a pow, slot_index-mod b pow) (mod-ne a b capacity lt near)

-- A slot one ring on lies at the same index.
pub slot_index-add :
    {capacity : ℕ} (slot : ℕ)
    → IsPow2 capacity
    → slot_index capacity (slot + capacity) ≡ slot_index capacity slot
slot_index-add {capacity} slot pow =
    rw (slot_index-mod (slot + capacity) pow, slot_index-mod slot pow) (add-mod_right slot capacity)

pub capacity_pos : {capacity : ℕ} → IsPow2 capacity → 0 < capacity
capacity_pos (k, e) = omega (arith, e, one-le-pow k 2)

-- Words 1 up to, but not including, `wi` of `dst` are those of `src`.
pub record Stored (wi : ℕ) (src dst : TransferCmd) : Type 0 where
  pub word1 : 1 < wi → dst.remote_offset ≡ src.remote_offset
  pub word2 : 2 < wi → dst.local_offset ≡ src.local_offset
  pub word3 :
      3 < wi
      → (dst.bytes ≡ src.bytes)
        × (dst.src_view ≡ src.src_view)
        × (dst.reserved0 ≡ src.reserved0)
        × (dst.row_span ≡ src.row_span)
  pub word4 : 4 < wi → dst.row_count ≡ src.row_count
  pub word5 : 5 < wi → dst.enqueue_device_ns ≡ src.enqueue_device_ns

pub Stored-first : (src dst : TransferCmd) → Stored 1 src dst
Stored-first src dst = record {
  word1 = λ h. absurd (omega arith);
  word2 = λ h. absurd (omega arith);
  word3 = λ h. absurd (omega arith);
  word4 = λ h. absurd (omega arith);
  word5 = λ h. absurd (omega arith);
}

-- The store of one more word, which leaves word 0 alone.
pub put_word-Stored :
    (wi : ℕ) (src dst : TransferCmd)
    → 0 < wi
    → wi < 6
    → Stored wi src dst
    → Stored (wi + 1) src (put_word wi src dst) × ((put_word wi src dst).cmd_type ≡ dst.cmd_type)
unfolding put_word
put_word-Stored zero src dst p h s = absurd (omega arith)
put_word-Stored (suc zero) src dst p h s = ground arith
put_word-Stored (suc (suc zero)) src dst p h s = ground arith
put_word-Stored (suc (suc (suc zero))) src dst p h s = ground arith
put_word-Stored (suc (suc (suc (suc zero)))) src dst p h s = ground arith
put_word-Stored (suc (suc (suc (suc (suc zero))))) src dst p h s = ground arith
put_word-Stored (suc (suc (suc (suc (suc (suc wi)))))) src dst p h s = absurd (omega arith)

-- Once the other five words are there, the release store of word 0 makes the record whole.
pub put_word-whole : (src dst : TransferCmd) → Stored 6 src dst → put_word 0 src dst ≡ src
unfolding put_word
put_word-whole src dst s = ground arith
