-- ===== src/Prelude.antt =====
-- The names that the other modules share: the libraries', passed on, and those of the children.
mod Tests
mod Lists
mod Texts
mod Decimal
mod Dicts
mod Integers
pub use Tests.*
pub use Lists.*
unfoldable pub use Texts.{Text, codes, text_beq}
pub use Texts.{text_eq, text_beq_iff, Text-cases, last_split, first_split}
unfoldable pub use Decimal.{str, str_from}
pub use Decimal.{str-injective, str-ne-nil, All-str}
unfoldable pub use Dicts.{lookup, insert}
pub use Dicts.{lookup-insert, lookup-insert_self, lookup-insert_ne}
unfoldable pub use Integers.{float_one, trunc}
pub use Integers.{ℤ, pos, negsuc, Float, AnyFloat, finite_float, infinite_float, nan_float}
pub use Prim.Native.Nat.{ℕ, zero, suc, ◌+◌, ◌-◌, ◌*◌, ◌/◌, ◌%◌, ◌^◌, ◌≤◌, ◌<◌, min, max}
pub use mathlib.Core.Path.{◌≡◌, refl, sym, ap, ap₂, ◌∙◌, subst}
pub use mathlib.Core.Logic.{◌≢◌, ◌↔◌, ◌⊎◌, inl, inr}
pub use mathlib.Core.Bool.{Bool, true, false, not, ◌&&◌, ◌||◌}
pub use mathlib.Core.Option.{Option, none, some}
pub use mathlib.Core.List.{List, [], ◌∷◌, ◌++◌, map}
pub use native.Mathlib.Omega.{arith}
