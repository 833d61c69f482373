-- ===== src/Common.antt =====
-- Names, types and lemmas that every component shares: the libraries' names passed on, Boolean
-- tests, lists measured by native numbers, byte texts, and association lists for Go maps.
mod Tests
mod Lists
mod Assoc
pub mod Text
pub mod Int
pub use Tests.*
pub use Lists.*
pub use Assoc.{Map}
unfoldable pub use Assoc.{lookup, insert, delete}
pub use Assoc.{lookup-insert, lookup-delete, map_laws}
pub use Prim.Native.Nat.{ℕ, zero, suc, ◌+◌, ◌-◌, ◌*◌, ◌≤◌, ◌<◌}
pub use mathlib.Core.Path.{◌≡◌, refl, sym, ap, ap₂, ◌∙◌}
pub use mathlib.Core.Logic.{◌≢◌, ◌↔◌, ◌⊎◌, inl, inr}
pub use mathlib.Core.Bool.{Bool, true, false, not, ◌&&◌, ◌||◌}
pub use mathlib.Core.Option.{Option, none, some}
pub use mathlib.Core.List.{List, [], ◌∷◌, ◌++◌, map}
pub use native.Mathlib.Omega.{arith}
