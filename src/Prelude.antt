-- ===== src/Prelude.antt =====
-- The names that the other modules share: the libraries', passed on, and those of the children.
pub mod Tests
pub mod Lists
pub mod Exceptions
pub mod ByteList
pub mod Dict
pub mod Bits
pub mod Exec
pub mod Hex
pub mod Words
pub mod Decimal
pub mod Congruence
pub mod Text
pub mod Value
pub use Tests.*
pub use Lists.*
pub use Exceptions.*
unfoldable pub use ByteList.{bytes_eq, bytes_lt}
pub use ByteList.{
  Bytes, bytes_eq→eq, bytes_eq_refl, bytes_eq_iff, bytes_lt_asymm, eq_of_not_lt, append_left_cancel,
}
pub use Prim.Native.Nat.{ℕ, zero, suc, ◌+◌, ◌-◌, ◌*◌, ◌/◌, ◌%◌, ◌^◌, ◌≤◌, ◌<◌}
pub use mathlib.Core.Path.{◌≡◌, refl, sym, ap, ◌∙◌, subst}
pub use mathlib.Core.Logic.{◌≢◌, ◌↔◌, ◌⊎◌, inl, inr}
pub use mathlib.Core.Bool.{Bool, true, false, not, ◌&&◌, ◌||◌}
pub use mathlib.Core.Option.{Option, none, some}
pub use mathlib.Core.List.{List, [], ◌∷◌, ◌++◌, map}
pub use native.Mathlib.Omega.{arith}
