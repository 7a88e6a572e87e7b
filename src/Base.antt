-- ===== src/Base.antt =====
-- Shared names: the libraries', passed on, and the children's tests, lists, text and dictionaries.
-- The source is Python: `Text` is `str` or `bytes`, `Dict` is a `dict` with text keys.
mod Tests
mod Lists
mod Chars
mod Stripping
mod Mapping
mod Splitting
mod Digits
unfoldable pub use Tests.*
unfoldable pub use Lists.*
unfoldable pub use Chars.*
unfoldable pub use Stripping.*
unfoldable pub use Mapping.*
unfoldable pub use Splitting.*
unfoldable pub use Digits.*
pub use Prim.Native.Nat.{ℕ, zero, suc, ◌+◌, ◌*◌, ◌/◌, ◌%◌, ◌-◌, ◌≤◌, ◌<◌}
pub use Prim.Native.String.{String}
pub use mathlib.Core.Path.{◌≡◌, refl, sym, ap, ◌∙◌, subst}
pub use mathlib.Core.Logic.{◌≢◌, ◌↔◌, ◌⊎◌, inl, inr}
pub use mathlib.Core.Bool.{Bool, true, false, ◌&&◌, ◌||◌, not}
pub use mathlib.Core.Option.{Option, none, some}
pub use mathlib.Core.List.{List, [], ◌∷◌, ◌++◌, map}
pub use native.Mathlib.Omega.{arith}
