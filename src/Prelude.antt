-- ===== src/Prelude.antt =====
-- The names that the other modules share: those of the libraries, passed on, the tests on numbers,
-- lists measured by native numbers, texts as lists of code points, and Python dictionaries.
mod Tests
mod Lists
mod Texts
mod Keyset
pub mod Dict
mod Decimal
pub use Tests.*
unfoldable pub use Lists.*
unfoldable pub use Keyset.*
unfoldable pub use Texts.*
unfoldable pub use Decimal.*
pub use Prim.Native.Nat.{ℕ, zero, suc, ◌+◌, ◌-◌, ◌*◌, ◌/◌, ◌%◌, ◌^◌, ◌≤◌, ◌<◌, max}
pub use Prim.Native.String.{String}
pub use mathlib.Core.Path.{◌≡◌, refl, sym, ap, ◌∙◌}
pub use mathlib.Core.Logic.{◌≢◌, ◌↔◌, ◌⊎◌, inl, inr}
pub use mathlib.Core.Bool.{Bool, true, false, not, ◌&&◌, ◌||◌}
pub use mathlib.Core.Option.{Option, none, some}
pub use mathlib.Core.List.{List, [], ◌∷◌, ◌++◌, map}
pub use native.Mathlib.Omega.{arith}
