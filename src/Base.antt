-- ===== src/Base.antt =====
-- The names that the modules of this library share.
pub mod Tests
pub mod Outcome
pub mod Slots
pub mod Occurrences
pub mod Members
pub mod Lists
pub mod Bits
pub use Tests.*
pub use Outcome.*
pub use Members.*
pub use Lists.*
pub use Slots.{update, one_if_eq, SameItems, swap, occurrences}
unfoldable pub use Slots.{count}
pub use Prim.Native.Nat.{ℕ, zero, suc, ◌+◌, ◌-◌, ◌*◌, ◌/◌, ◌%◌, ◌^◌, ◌≤◌, ◌<◌}
pub use mathlib.Core.Path.{◌≡◌, refl, sym, ap, ◌∙◌}
pub use mathlib.Core.Logic.{◌≢◌, ◌↔◌, ◌⊎◌, inl, inr}
pub use mathlib.Core.Bool.{Bool, true, false, ◌&&◌, ◌||◌}
pub use mathlib.Core.Option.{Option, none, some}
pub use mathlib.Core.List.{List, [], ◌∷◌, ◌++◌}
pub use native.Mathlib.Omega.{arith}
