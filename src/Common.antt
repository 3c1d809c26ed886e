-- ===== src/Common.antt =====
-- Names shared by all the modules: the libraries', passed on, Boolean tests, lists, text,
-- dictionaries and the interface of Python's floats.
mod Tests
mod Lists
pub mod Int
pub mod Eq
pub mod Text
pub mod Dict
pub mod Float
pub mod Fixed
pub mod Result
pub mod Cases
pub use Tests.*
pub use Lists.*
pub use Prim.Native.Nat.{ℕ, zero, suc, ◌+◌, ◌-◌, ◌*◌, ◌/◌, ◌%◌, ◌^◌, ◌≤◌, ◌<◌}
pub use mathlib.Core.Path.{◌≡◌, refl, sym, ap, ◌∙◌, subst}
pub use mathlib.Core.Logic.{◌≢◌, ◌↔◌, ◌⊎◌, inl, inr}
pub use mathlib.Core.Bool.{Bool, true, false, not, ◌&&◌, ◌||◌}
pub use mathlib.Core.Option.{Option, none, some}
pub use mathlib.Core.List.{List, [], ◌∷◌, ◌++◌, map}
pub use native.Mathlib.Omega.{arith}
