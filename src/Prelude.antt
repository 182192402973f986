-- ===== src/Prelude.antt =====
-- The names that the modules share: the libraries' names passed on, Boolean tests on numbers and
-- texts, lists over the native numbers, and JavaScript's `Map` and `Set`.
mod Tests
mod Lists
mod Waits
pub mod Text
pub mod Map
pub mod TextSet
pub mod Js
pub use Tests.*
pub use Lists.*
pub use Waits.*
pub use Prim.Native.Nat.{ℕ, zero, suc, ◌+◌, ◌-◌, ◌*◌, ◌/◌, ◌%◌, ◌^◌, ◌≤◌, ◌<◌, min, max}
pub use mathlib.Core.Path.{◌≡◌, refl, sym, ap, subst, ◌∙◌}
pub use mathlib.Core.Logic.{◌≢◌, ◌↔◌, ◌⊎◌, inl, inr}
pub use mathlib.Core.Bool.{Bool, true, false, not, ◌&&◌, ◌||◌}
pub use mathlib.Core.Option.{Option, none, some}
pub use mathlib.Core.List.{List, [], ◌∷◌, ◌++◌, map}
pub use native.Mathlib.Omega.{arith}
