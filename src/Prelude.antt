-- ===== src/Prelude.antt =====
-- The names that the other modules share: the libraries', passed on, and those of the children.
mod Tests
mod Lists
mod Maps
mod Text
mod Sort
pub mod Numbers
pub mod Paths
pub use Tests.*
unfoldable pub use Lists.{contains}
pub use Lists.{
  length, take, all, any, count_if, count, select, is_nil, length-append, contains-count,
  is_nil-append, any-append, All, All-append,
}
unfoldable pub use Maps.{lookup, insert}
pub use Maps.{Map, keys, lookup-insert}
unfoldable pub use Text.{
  has_prefix, contains_text, has_point, contains_any, to_lower, is_abs, base, same, drop_spaces,
  trim_space,
}
unfoldable pub use Sort.{sort_by, insert_sorted}
pub use Sort.{text_less, sort_by-count}
unfoldable pub use Sort.Sets.{distinct, sorted_set}
pub use Sort.Sets.{contains-sort_by, SameSet, contains-sorted_set, sorted_set-SameSet}
pub use Text.{Points, codes, same→eq, same_refl}
pub use Prim.Native.Nat.{ℕ, zero, suc, ◌+◌, ◌-◌, ◌*◌, ◌%◌, ◌^◌, ◌≤◌, ◌<◌}
pub use Prim.Native.String.{String}
pub use mathlib.Core.Path.{◌≡◌, refl, sym, ap, subst, ◌∙◌}
pub use mathlib.Core.Logic.{◌≢◌, ◌↔◌, ◌⊎◌, inl, inr}
pub use mathlib.Core.Bool.{Bool, true, false, not, ◌&&◌, ◌||◌}
pub use mathlib.Core.Option.{Option, none, some}
pub use mathlib.Core.List.{List, [], ◌∷◌, ◌++◌, map, reverse}
pub use native.Mathlib.Omega.{arith}
pub use text.Mathlib.Text.{◌==◌, starts_with}
pub use text.Mathlib.TextEquality.{eq_iff}
pub use text.Mathlib.TextPositions.{eq_refl}
