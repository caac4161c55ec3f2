-- ===== src/Prelude.antt =====
-- Names that every module shares: the libraries', passed on, and those of its children. Python's
-- `str` is the native `String`, `int` is `ℤ`, `list` and `tuple` are `List`.
mod Tests
mod Lists
mod Int
mod Text
mod Sets
mod Dicts
pub use Tests.*
pub use Lists.*
pub use Int.*
unfoldable pub use Text.*
unfoldable pub use Sets.*
unfoldable pub use Dicts.*
pub use Prim.Native.Nat.{ℕ, zero, suc, ◌+◌, ◌-◌, ◌*◌, ◌/◌, ◌%◌, ◌≤◌, ◌<◌, min}
pub use Prim.Native.String.{String}
pub use mathlib.Core.Path.{◌≡◌, refl, sym, ap, ◌∙◌, subst}
pub use mathlib.Core.Logic.{◌≢◌, ◌↔◌, ◌⊎◌, inl, inr}
pub use mathlib.Core.Bool.{Bool, true, false, not, ◌&&◌, ◌||◌}
pub use mathlib.Core.Option.{Option, none, some}
pub use mathlib.Core.List.{List, [], ◌∷◌, ◌++◌, map}
pub use native.Mathlib.Omega.{arith}
