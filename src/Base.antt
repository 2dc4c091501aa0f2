-- ===== src/Base.antt =====
-- The names that the modules of the development share: the libraries' names passed on, tests on
-- native numbers, lists under native indices, machine words, and runs that may halt.
pub mod Tests
pub mod Lists
pub mod Words
pub mod Halting
pub mod Errors
pub mod Families
pub use Tests.*
pub use Lists.*
pub use Words.*
pub use Halting.*
pub use Errors.*
pub use Families.*
pub use Prim.Native.Nat.{ℕ, zero, suc, ◌+◌, ◌-◌, ◌*◌, ◌/◌, ◌%◌, ◌^◌, ◌≤◌, ◌<◌, min}
pub use mathlib.Core.Path.{◌≡◌, refl, sym, ap, ap₂, ◌∙◌, subst}
pub use mathlib.Core.Logic.{◌≢◌, ◌↔◌, ◌⊎◌, inl, inr}
pub use mathlib.Core.Bool.{Bool, true, false, not, ◌&&◌, ◌||◌}
pub use mathlib.Core.Option.{Option, none, some}
pub use mathlib.Core.List.{List, [], ◌∷◌, ◌++◌, map}
pub use native.Mathlib.Omega.{arith}
