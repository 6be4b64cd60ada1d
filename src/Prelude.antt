-- ===== src/Prelude.antt =====
-- The names that the other modules share: the libraries', passed on, and those of the children.
mod Tests
mod Assoc
mod Lists
mod Text
mod Sort
pub mod Int
pub mod Results
pub use Tests.*
pub use text.Mathlib.TextEquality.{eq_iff as str_eq_iff}
pub use Assoc.*
pub use Lists.*
pub use Text.*
pub use Sort.*
unfoldable pub use Text.{decimal}
unfoldable pub use Sort.{insert_by, sort_by}
unfoldable pub use Assoc.{lookup, insert, erase, lookup_or, contains}
unfoldable pub use Lists.{any, elem}
pub use Prim.Native.Nat.{ℕ, zero, suc, ◌+◌, ◌-◌, ◌*◌, ◌/◌, ◌%◌, ◌≤◌, ◌<◌, max, min}
pub use Prim.Native.String.{String}
pub use text.Mathlib.Text.{starts_with}
pub use mathlib.Core.Path.{◌≡◌, refl, sym, ap, subst, ◌∙◌}
pub use mathlib.Core.Logic.{◌≢◌, ◌↔◌, ◌⊎◌, inl, inr}
pub use mathlib.Core.Bool.{Bool, true, false, not, ◌&&◌, ◌||◌}
pub use mathlib.Core.Option.{Option, none, some}
pub use mathlib.Core.List.{List, [], ◌∷◌, ◌++◌, map}
pub use native.Mathlib.Omega.{arith}
