-- ===== src/Prelude.antt =====
-- The names that the modules share: those of the libraries, passed on, and those of the children:
-- Boolean tests, lists and maps over native indices, integers, machine words and their bits.
mod Tests
mod Lists
mod Division
pub mod Int
pub mod Words
mod Smear
mod Powers
pub use Tests.*
pub use Lists.*
pub use Division.*
pub use Words.*
pub use Powers.*
unfoldable pub use Smear.*
pub use Prim.Native.Nat.{ℕ, zero, suc, ◌+◌, ◌-◌, ◌*◌, ◌/◌, ◌%◌, ◌^◌, ◌≤◌, ◌<◌, min, max}
pub use Prim.Native.Nat.{bit_and, bit_or}
pub use mathlib.Core.Path.{◌≡◌, refl, sym, ap, ◌∙◌}
pub use mathlib.Core.Logic.{◌≢◌, ◌↔◌, ◌⊎◌, inl, inr}
pub use mathlib.Core.Bool.{Bool, true, false, ◌&&◌, ◌||◌, not}
pub use mathlib.Core.Option.{Option, none, some}
pub use mathlib.Core.List.{List, [], ◌∷◌, ◌++◌, map, append-nil, append_assoc}
pub use native.Mathlib.Omega.{arith}
unfoldable pub use native.Mathlib.Decide.{dec_lt, dec_le, ℕ_discrete}
pub use native.Mathlib.Nat.{
  div-mul-le_self, lt-div-mul-add, div-add-mod', mod-lt, mod-eq_of_lt, mul-add-mod_self_right,
}
