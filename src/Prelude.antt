-- ===== src/Prelude.antt =====
-- The names that every module shares: the libraries' own, passed on, and those of the children.
mod Tests
mod Lists
mod Sets
mod Outcomes
mod Maps
pub use Tests.*
pub use Lists.*
pub use Outcomes.*
unfoldable pub use Maps.{lookup, insert, erase}
pub use Maps.{lookup-insert, lookup-erase}
unfoldable pub use Sets.{set_add, set_from}
pub use Sets.{
  Distinct, Distinct-of_FreshFor, Distinct-of_set_size, FreshFor, FreshFor-nil,
  set_size_of_Distinct,
}
pub use Prim.Native.Nat.{ℕ, zero, suc, ◌+◌, ◌-◌, ◌*◌, ◌/◌, ◌%◌, ◌≤◌, ◌<◌}
pub use Prim.Native.String.{String}
pub use mathlib.Core.Path.{◌≡◌, refl, sym, ap, ◌∙◌, subst}
pub use mathlib.Core.Logic.{◌≢◌, ◌↔◌, ◌⊎◌, inl, inr}
pub use mathlib.Core.Bool.{Bool, true, false, not, ◌&&◌, ◌||◌}
pub use mathlib.Core.Option.{Option, none, some, get_or}
pub use mathlib.Core.List.{List, [], ◌∷◌, ◌++◌, map, append-nil}
pub use native.Mathlib.Omega.{arith}
pub use text.Mathlib.TextEquality.{eq_iff}
pub use text.Mathlib.TextPositions.{eq_refl}
