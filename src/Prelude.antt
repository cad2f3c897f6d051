-- ===== src/Prelude.antt =====
-- The names that every module shares: the libraries', passed on, with tests, lists and Go's text.
mod Tests
mod Lists
mod Strings
pub use Tests.*
pub use Lists.*
unfoldable pub use Strings.{
  length, utf8_width, utf8_length, eq_text, has_prefix, to_lower, trim_left, replace_all, is_space,
  trim_space, contains, utf8, occurrences,
}
pub use Strings.{
  Text, codes, eq_text_iff, eq_text_refl, colon, slash, is_empty, is_empty_iff, Lacks,
  has_prefix-split, has_prefix-append, ne_nil→is_empty, is_empty→ne_nil,
}
pub use Prim.Native.String.{String}
pub use Prim.Native.Nat.{ℕ, zero, suc, ◌+◌, ◌-◌, ◌*◌, ◌/◌, ◌%◌, ◌^◌, ◌≤◌, ◌<◌}
pub use mathlib.Core.Path.{◌≡◌, refl, sym, subst, ap, ◌∙◌}
pub use mathlib.Core.Logic.{◌≢◌, ◌↔◌, ◌⊎◌, inl, inr}
pub use mathlib.Core.Bool.{Bool, true, false, not, ◌&&◌, ◌||◌}
pub use mathlib.Core.Option.{Option, none, some}
pub use mathlib.Core.List.{List, [], ◌∷◌, ◌++◌, map, append_assoc, append-nil}
pub use native.Mathlib.Omega.{arith}
