-- ===== src/Prelude.antt =====
-- The names that the other modules share: the libraries', passed on, and those of the children.
mod Tests
mod Lists
mod Results
mod Strings
mod Maps
pub mod Bits
pub mod Trim
pub mod Split
pub mod Select
pub mod Decimal
pub mod Int
pub mod Codes
pub use Tests.*
pub use Lists.*
pub use Results.*
pub use Prim.Native.Nat.{ℕ, zero, suc, ◌+◌, ◌-◌, ◌*◌, ◌/◌, ◌%◌, ◌^◌, ◌≤◌, ◌<◌, bit_and, bit_or}
pub use mathlib.Core.Path.{◌≡◌, refl, sym, ap, ◌∙◌, subst}
pub use mathlib.Core.Logic.{◌≢◌, ◌↔◌, ◌⊎◌, inl, inr}
pub use mathlib.Core.Bool.{Bool, true, false, not, ◌&&◌, ◌||◌}
pub use mathlib.Core.Option.{Option, none, some}
pub use mathlib.Core.List.{List, [], ◌∷◌, ◌++◌, map, filter}
pub use native.Mathlib.Omega.{arith}
pub use Strings.{str_eq_refl, str_eq_iff}
unfoldable pub use Maps.{lookup, insert, delete, has}
pub use Maps.{
  Assoc, Distinct, lookup-insert, lookup-delete, has-lookup, lookup-has, has-some, has-insert,
  length-insert, length-delete-le, insert-Distinct, delete-Distinct,
}
unfoldable pub use Strings.{Text, IsByte, str_eq}
