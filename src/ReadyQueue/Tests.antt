-- ===== src/ReadyQueue/Tests.antt =====
-- The ready queue at concrete inputs.
use m_kernel.Prelude.{◌<◌, ◌*◌, refl, ◌≡◌, ◌∷◌, [], arith, u32, ◌+◌, IsPow2, ◌≤◌}
use m_kernel.ReadyQueue.Create.{create-IsPow2}
use m_kernel.ReadyQueue.{ReadyQueue, push_batch, slot_of, create_ready_queue}
use m_kernel.ReadyQueue.Batch.{push_each, push_batch-push_each, push_batch-reads}
use m_kernel.Prelude.{smear}

-- Four slots, with the tail about to wrap.
abbrev wrapping : ReadyQueue
wrapping = record {
  entries = λ _. 0;
  tail = 4294967295;
  local_tail = 4294967295;
  capacity = 4;
  head = 0;
  total = 8;
}

wraps : (push_batch wrapping (5 ∷ 6 ∷ 7 ∷ [])).tail ≡ 2
unfolding push_batch
wraps = refl

push_batch-push_each_example :
    push_batch wrapping (5 ∷ 6 ∷ 7 ∷ []) ≡ push_each wrapping (5 ∷ 6 ∷ 7 ∷ [])
push_batch-push_each_example = push_batch-push_each wrapping (5 ∷ 6 ∷ 7 ∷ []) (omega arith) refl

push_batch-reads_example :
    (push_batch wrapping (5 ∷ 6 ∷ 7 ∷ [])).entries (slot_of 4 (u32 (4294967295 + 2))) ≡ 7
push_batch-reads_example =
    push_batch-reads wrapping (5 ∷ 6 ∷ 7 ∷ []) 2 7 (2, refl) (omega arith) (omega arith) refl

create-IsPow2_example :
    IsPow2 (create_ready_queue 1000).capacity
    × (1000 ≤ (create_ready_queue 1000).capacity)
    × ((create_ready_queue 1000).capacity < 2 * 1000)
create-IsPow2_example = create-IsPow2 1000 (omega arith)

created : (create_ready_queue 1000).capacity ≡ 1024
unfolding create_ready_queue smear
created = refl
