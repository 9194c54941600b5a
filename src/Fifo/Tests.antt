-- ===== src/Fifo/Tests.antt =====
-- The ring at concrete inputs: one thread pushes a command through a ring of two slots.
use m_kernel.Prelude.{
  ℕ, ◌+◌, ◌≤◌, ◌<◌, ◌≡◌, ◌≢◌, refl, arith, IsPow2, none, some, [], ◌∷◌, length, inl,
}
use m_kernel.Types.{CmdType, TransferCmd, zero_cmd}
use m_kernel.Fifo.{Fifo, poll, slot_index, count_ready, create_d2h_fifo, put_word}
use m_kernel.Fifo.Create.{fresh_fifo, create_d2h_fifo-iff-IsPow2}
use m_kernel.Fifo.System.{System, claim, move, release, polls, room, store, stored}
use m_kernel.Fifo.Delivery.{
  Reach, start, next, first, got-first, write_is_safe, empty_poll_is_pending,
}
use m_kernel.Fifo.Drain.{drained, count_ready-drained}
use m_kernel.Fifo.Invariant.{claimed}

abbrev tile_cmd : TransferCmd
tile_cmd = record zero_cmd { cmd_type = CmdType.write; tile_id = 7; bytes = 65536; lane_id = 3 }

record Run : Type 0 where
  last : System
  reach : Reach (fresh_fifo 2) last

abbrev claimed_run : Run
claimed_run = record { last = _; reach = next start (claim 0 tile_cmd refl refl) }

abbrev writing_run : Run
writing_run = record { last = _; reach = next claimed_run.reach (move 0 (room (omega arith))) }

-- The five words of the body, then word 0.
abbrev committed_run : Run
committed_run = record {
  last = _;
  reach =
      next
        (next
          (next
            (next
              (next
                (next (next writing_run.reach (move 0 (store (omega arith))))
                  (move 0 (store (omega arith))))
                (move 0 (store (omega arith))))
              (move 0 (store (omega arith))))
            (move 0 (store (omega arith))))
          (move 0 (stored refl)))
        (release 0 tile_cmd 0 refl);
}

abbrev polled_run : Run
polled_run = record { last = _; reach = next committed_run.reach polls }

-- A second thread claims slot 1 and may write, while slot 0 is unread.
abbrev racing_run : Run
racing_run = record {
  last = _;
  reach =
      next (next committed_run.reach (claim 1 tile_cmd refl refl)) (move 1 (room (omega arith)));
}

abbrev two : IsPow2 2
two = (1, refl)

got_it : polled_run.last.got ≡ tile_cmd ∷ []
unfolding poll slot_index put_word
got_it = refl

empty_poll_is_pending_example :
    (i : ℕ) × (claimed (claimed_run.last.pc i) ≡ some (claimed_run.last.log 0, 0))
unfolding poll slot_index
empty_poll_is_pending_example =
    empty_poll_is_pending two claimed_run.reach (omega arith) (omega arith) refl

got-first_example :
    (polled_run.last.got ≡ first polled_run.last.mem.cpu_head polled_run.last.log)
    × (polled_run.last.mem.cpu_head ≤ 1)
got-first_example = got-first two polled_run.reach (omega arith)

write_is_safe_example : (slot_index 2 1 ≢ slot_index 2 0) × (1 < racing_run.last.mem.tail + 2)
write_is_safe_example =
    write_is_safe two racing_run.reach (omega arith) 1 tile_cmd 1 0 (inl (1, refl)) (omega arith)
      refl

create_d2h_fifo_accepts : create_d2h_fifo 1024 ≡ some (fresh_fifo 1024)
unfolding create_d2h_fifo
create_d2h_fifo_accepts = refl

create_d2h_fifo_refuses : create_d2h_fifo 1000 ≡ none
unfolding create_d2h_fifo
create_d2h_fifo_refuses = refl

create_d2h_fifo-iff-IsPow2_example :
    (IsPow2 1000 → create_d2h_fifo 1000 ≡ some (fresh_fifo 1000))
    × ((m : Fifo) → create_d2h_fifo 1000 ≡ some m → IsPow2 1000 × (m ≡ fresh_fifo 1000))
create_d2h_fifo-iff-IsPow2_example = create_d2h_fifo-iff-IsPow2 1000

count_ready-drained_example :
    count_ready committed_run.last.mem 2 ≡ length (drained committed_run.last.mem 2)
count_ready-drained_example =
    count_ready-drained committed_run.last.mem 2 two (omega arith) (omega arith)

one_ready : count_ready committed_run.last.mem 2 ≡ 1
unfolding count_ready slot_index put_word
one_ready = refl
