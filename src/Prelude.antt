-- ===== src/Prelude.antt =====
-- The names that the other modules share: the libraries', passed on, and those of the children.
mod Tests
mod Lists
mod Loop
mod Dict
mod Results
pub mod Int
pub use Tests.*
pub use Lists.*
pub use Results.*
unfoldable pub use Dict.{lookup, insert}
pub use Dict.{lookup-insert, lookup-insert_self}
unfoldable pub use Loop.{for_each}
pub use Loop.{
  Action, resume, ◌>>◌, skip, resume_keeps, for_each_keeps, resume_either, resume-none,
  for_each_reaches,
}
pub use Prim.Native.Nat.{ℕ, zero, suc, ◌+◌, ◌-◌, ◌*◌, ◌/◌, ◌≤◌, ◌<◌, max, min}
pub use Prim.Native.String.{String}
pub use mathlib.Core.Path.{◌≡⟨◌⟩◌, ◌∎, ◌≡◌, refl, sym, ap, ◌∙◌, subst}
pub use mathlib.Core.Logic.{◌≢◌, ◌↔◌, ◌⊎◌, inl, inr}
pub use mathlib.Core.Bool.{Bool, true, false, not, ◌&&◌, ◌||◌}
pub use mathlib.Core.Option.{Option, none, some}
pub use mathlib.Core.List.{List, [], ◌∷◌, ◌++◌, map, append_assoc, append-nil}
pub use native.Mathlib.Omega.{arith}
