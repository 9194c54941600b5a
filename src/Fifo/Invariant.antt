-- ===== src/Fifo/Invariant.antt =====
-- What holds of the ring and its threads between any two steps, and that every step keeps it.
mod Defs
mod Moves
mod Places
mod Threads
mod Polls
mod Steps
pub use Steps.*
pub use Polls.{Polled, nothing, taken_one, poll-Polled, oldest-Ready}
pub use Places.{apart}
pub use Moves.{Effect, Move-Effect}
pub use Defs.*
