-- ===== src/Base.antt =====
-- The names that the other modules share: numbers, lists, options, results, orders and the
-- ordered maps of `std::collections`.
mod Tests
mod Lists
mod Outcome
mod Order
pub mod Map
pub use Tests.*
pub use Lists.*
pub use Outcome.*
pub use Order.{Ord, nat_ord, pair_ord, list_ord, ◌==◌, ==_iff, ==_refl, one_greater}
pub use Prim.Native.Nat.{ℕ, zero, suc, ◌+◌, ◌-◌, ◌*◌, ◌/◌, ◌%◌, ◌^◌, ◌≤◌, ◌<◌, Ordering}
pub use Prim.Native.String.{String, ◌++◌ as ◌<>◌}
pub use mathlib.Core.Path.{◌≡◌, refl, sym, ap, subst, ◌∙◌}
pub use mathlib.Core.Logic.{◌≢◌, ◌↔◌, ◌⊎◌, inl, inr}
pub use mathlib.Core.Bool.{Bool, true, false, not, ◌&&◌, ◌||◌}
pub use mathlib.Core.Option.{Option, none, some}
pub use mathlib.Core.List.{List, [], ◌∷◌, ◌++◌, map}
pub use native.Mathlib.Omega.{arith}
