-- ===== src/Prelude.antt =====
-- The names that the modules share: the libraries', passed on, and those of the children (tests,
-- lists, and the association lists that stand for `std::map` and `std::unordered_map`).
mod Tests
mod Lists
mod Maps
mod Decimal
mod Sorting
mod TextOrder
mod Unique
mod Totals
pub use Tests.*
pub use Lists.*
unfoldable pub use Sorting.*
unfoldable pub use Unique.{unique, Increasing}
pub use Unique.{unique-sort-Increasing, unique-sort-All, unique-sort-All_back}
pub use TextOrder.{text_lt-transitive}
unfoldable pub use Totals.*
unfoldable pub use Maps.*
unfoldable pub use Decimal.{decimal}
pub use Prim.Native.Nat.{ℕ, zero, suc, ◌+◌, ◌-◌, ◌*◌, ◌/◌, ◌%◌, ◌^◌, ◌≤◌, ◌<◌}
pub use Prim.Native.String.{String}
pub use mathlib.Core.Path.{◌≡◌, refl, sym, ap, ◌∙◌, subst}
pub use mathlib.Core.Logic.{◌≢◌, ◌↔◌, ◌⊎◌, inl, inr}
pub use mathlib.Core.Bool.{Bool, true, false, not, ◌&&◌, ◌||◌}
pub use mathlib.Core.Option.{Option, none, some}
pub use mathlib.Core.List.{List, [], ◌∷◌, ◌++◌, map}
pub use native.Mathlib.Omega.{arith}
pub use text.Mathlib.Text.{◌==◌, find?}
pub use text.Mathlib.TextEquality.{eq_iff}
pub use text.Mathlib.TextPositions.{eq_refl}
