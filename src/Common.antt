-- ===== src/Common.antt =====
-- The names that all modules share: the libraries' names, passed on, and those of four children.
mod Tests
mod Int
mod Lists
mod Outcome
mod Sorting
mod Table
pub use Tests.*
unfoldable pub use Int.*
pub use Lists.*
unfoldable pub use Sorting.*
unfoldable pub use Table.*
unfoldable pub use Outcome.*
pub use Prim.Native.Nat.{ℕ, zero, suc, ◌+◌, ◌-◌, ◌*◌, ◌/◌, ◌%◌, ◌^◌, ◌≤◌, ◌<◌}
pub use mathlib.Core.Path.{◌≡◌, refl, sym, ap, ◌∙◌}
pub use mathlib.Core.Logic.{◌≢◌, ◌↔◌, ◌⊎◌, inl, inr}
pub use mathlib.Core.Bool.{Bool, true, false, not, ◌&&◌, ◌||◌}
pub use mathlib.Core.Option.{Option, none, some}
pub use mathlib.Core.List.{List, [], ◌∷◌, ◌++◌, map}
pub use native.Mathlib.Omega.{arith}
