-- ===== src/Prelude.antt =====
-- The names that the other modules share: the libraries', passed on, and those of the children.
mod Tests
mod Tables
mod Laws
mod Rows
mod Outcome
pub mod Stateful
pub use Tests.*
pub use Laws.*
pub use Rows.*
unfoldable pub use Tables.{select, update, delete, pop, exists, every, tables}
pub use Tables.{length}
pub use Outcome.{
  Result, ok, err, ◌>>=◌, ◌>>◌, ok_or, guard, map_err, >>=-eq-ok, guard-eq-ok, ok_or-eq-ok,
  map_err-eq-ok, Result-cases,
}
pub use Prim.Native.Nat.{ℕ, zero, suc, ◌+◌, ◌-◌, ◌*◌, ◌/◌, ◌%◌, ◌^◌, ◌≤◌, ◌<◌, min, max}
pub use mathlib.Core.Path.{◌≡◌, refl, sym, ap, subst, ◌∙◌}
pub use mathlib.Core.Logic.{◌≢◌, ◌↔◌, ◌⊎◌, inl, inr}
pub use mathlib.Core.Bool.{Bool, true, false, not, ◌&&◌, ◌||◌}
pub use mathlib.Core.Option.{Option, none, some}
pub use mathlib.Core.List.{List, [], ◌∷◌, ◌++◌, map}
pub use native.Mathlib.Omega.{arith}
