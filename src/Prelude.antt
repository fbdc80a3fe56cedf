-- ===== src/Prelude.antt =====
-- The names that the components share: the libraries', passed on, and those of the children.
-- Bytes are numbers, a byte slice is a list of them.
mod Tests
mod Lists
mod Words
mod Every
pub mod Order
pub mod Bits
pub mod Tables
pub mod Int
pub mod Outcome
pub mod Text
pub mod Distinct
pub mod Stateful
pub use Tests.*
pub use Lists.*
unfoldable pub use Words.*
pub use Every.*
pub use Prim.Native.Nat.{ℕ, zero, suc, ◌+◌, ◌-◌, ◌*◌, ◌/◌, ◌%◌, ◌^◌, ◌≤◌, ◌<◌}
pub use mathlib.Core.Path.{◌≡◌, refl, sym, ap, ◌∙◌}
pub use mathlib.Core.Logic.{◌≢◌, ◌↔◌, ◌⊎◌, inl, inr}
pub use mathlib.Core.Bool.{Bool, true, false, not, ◌&&◌, ◌||◌}
pub use mathlib.Core.Option.{Option, none, some}
pub use mathlib.Core.List.{List, [], ◌∷◌, ◌++◌, map, append-nil, append_assoc}
pub use native.Mathlib.Omega.{arith}
unfoldable pub use native.Mathlib.Decide.{dec_lt, ℕ_discrete}
