-- ===== src/Base.antt =====
-- Names that every module shares: the library's, passed on, and those of the helper modules below
-- (tests on numbers, equality of keys, lists). No code of the repository stands here.
mod Tests
mod Lists
mod Equality
pub mod Sort
pub mod Int
pub mod Text
pub mod Strings
pub mod Slices
pub mod Time
pub mod Assoc
pub use Tests.*
pub use Lists.*
unfoldable pub use Equality.*
pub use Prim.Native.Nat.{ℕ, zero, suc, ◌+◌, ◌-◌, ◌*◌, ◌/◌, ◌%◌, ◌^◌, ◌≤◌, ◌<◌}
pub use mathlib.Core.Path.{◌≡◌, refl, sym, ap, subst, ◌∙◌}
pub use mathlib.Core.Logic.{◌≢◌, ◌↔◌, ◌⊎◌, inl, inr}
pub use mathlib.Core.Bool.{Bool, true, false, not, ◌&&◌, ◌||◌}
pub use mathlib.Core.Option.{Option, none, some}
pub use mathlib.Core.List.{List, [], ◌∷◌, ◌++◌, map}
pub use native.Mathlib.Omega.{arith}
