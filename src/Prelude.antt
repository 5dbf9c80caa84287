-- ===== src/Prelude.antt =====
-- The names that the other modules share: the libraries', passed on, and those of four children:
-- Boolean tests on numbers, lists, integers and tables keyed by numbers.
mod Tests
mod Lists
mod Int
mod Tables
pub use Tests.*
pub use Lists.*
unfoldable pub use Int.*
unfoldable pub use Tables.*
pub use Prim.Native.Nat.{ℕ, zero, suc, ◌+◌, ◌-◌, ◌*◌, ◌≤◌, ◌<◌}
pub use Prim.Native.String.{String}
pub use mathlib.Core.Path.{◌≡◌, refl, sym, ap, ◌∙◌, subst}
pub use mathlib.Core.Logic.{◌≢◌, ◌↔◌, ◌⊎◌, inl, inr}
pub use mathlib.Core.Bool.{Bool, true, false, not, ◌&&◌, ◌||◌}
pub use mathlib.Core.Option.{Option, none, some}
pub use mathlib.Core.List.{List, [], ◌∷◌, ◌++◌, map}
pub use native.Mathlib.Omega.{arith}

-- A UUID is only compared and ordered, a datetime is a number of seconds, and a `Decimal` with two
-- places is an integer of minor units.
abbrev pub Uuid : Type 0
Uuid = ℕ

abbrev pub Datetime : Type 0
Datetime = ℕ

abbrev pub Decimal : Type 0
Decimal = ℤ
