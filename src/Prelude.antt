-- ===== src/Prelude.antt =====
-- Names that the other modules share: the libraries', passed on, and those of the children.
mod Tests
mod Lists
mod Kept
mod Dicts
mod Int
mod Partial
mod Numerals
mod Texts
pub use Tests.*
pub use Lists.*
pub use Kept.*
unfoldable pub use Lists.{keep}
pub use Dicts.*
unfoldable pub use Dicts.{lookup, insert, remove}
pub use Int.*
unfoldable pub use Int.{◌+ℤ◌, inc_int}
pub use Partial.*
unfoldable pub use Numerals.{atoi}
pub use Texts.*
unfoldable pub use Texts.{
  insert_name, sorted_names, split_parts, split_on, strip_prefix, cut, replace_first, without_char,
  trim_left, trim_right, trim_space, join,
}
pub use Prim.Native.Nat.{ℕ, zero, suc, ◌+◌, ◌-◌, ◌*◌, ◌/◌, ◌%◌, ◌^◌, ◌≤◌, ◌<◌}
pub use Prim.Native.String.{String, ◌++◌ as ◌<>◌}
pub use mathlib.Core.Path.{◌≡◌, refl, sym, ap, ◌∙◌, subst}
pub use mathlib.Core.Logic.{◌≢◌, ◌↔◌, ◌⊎◌, inl, inr}
pub use mathlib.Core.Bool.{Bool, true, false, not, ◌&&◌, ◌||◌}
pub use mathlib.Core.Option.{Option, none, some}
pub use mathlib.Core.List.{List, [], ◌∷◌, ◌++◌, map}
pub use native.Mathlib.Omega.{arith}
pub use text.Mathlib.Text.{◌==◌}
pub use text.Mathlib.TextEquality.{eq_iff}
pub use text.Mathlib.TextPositions.{eq_refl}
