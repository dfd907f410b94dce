-- ===== src/Base.antt =====
-- What the other modules share: library names passed on, tests on numbers, lists, equality as an
-- instance, orders with the sort that the standard library provides, and fallible results.
mod Tests
mod Lists
mod Equality
mod Membership
mod Outcome
pub mod Int
pub mod Order
pub mod Text
pub mod Numbers
pub mod Ip
pub use Tests.*
unfoldable pub use Lists.*
unfoldable pub use Equality.*
pub use Membership.*
unfoldable pub use Outcome.*
pub use Prim.Native.Nat.{ℕ, zero, suc, ◌+◌, ◌-◌, ◌*◌, ◌/◌, ◌%◌, ◌^◌, ◌≤◌, ◌<◌}
pub use mathlib.Core.Path.{◌≡◌, refl, sym, ap, ◌∙◌, subst}
pub use mathlib.Core.Logic.{◌≢◌, ◌↔◌, ◌⊎◌, inl, inr}
pub use mathlib.Core.Bool.{Bool, true, false, ◌&&◌, ◌||◌, not}
pub use mathlib.Core.Option.{Option, none, some}
pub use mathlib.Core.List.{List, [], ◌∷◌, ◌++◌, map}
pub use native.Mathlib.Omega.{arith}
unfoldable pub use native.Mathlib.Decide.{ℕ_discrete}
