-- ===== src/Prelude.antt =====
-- What the other modules share: library names passed on, Boolean tests, lists measured by native
-- numbers, an equality interface, dictionaries and the outcomes of code that may raise.
mod Tests
mod Lists
mod Classes
mod Outcomes
mod Dicts
mod Sets
mod Texts
pub use Tests.*
unfoldable pub use Texts.*
pub use Lists.*
pub use Classes.*
pub use Outcomes.*
unfoldable pub use Dicts.*
unfoldable pub use Sets.*
pub use Prim.Native.Nat.{ℕ, zero, suc, ◌+◌, ◌-◌, ◌*◌, ◌/◌, ◌%◌, ◌^◌, ◌≤◌, ◌<◌, min, max}
pub use Prim.Native.String.{String}
pub use mathlib.Core.Path.{◌≡◌, refl, sym, ap, ◌∙◌}
pub use mathlib.Core.Logic.{◌≢◌, ◌↔◌, ◌⊎◌, inl, inr}
pub use mathlib.Core.Bool.{Bool, true, false, not, ◌&&◌, ◌||◌}
pub use mathlib.Core.Option.{Option, none, some}
pub use mathlib.Core.List.{List, [], ◌∷◌, ◌++◌, map}
pub use native.Mathlib.Omega.{arith}
