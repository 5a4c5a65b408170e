-- ===== src/Prelude.antt =====
-- The names that the other modules share: the libraries', passed on, and those of the children.
mod Tests
mod Lists
mod Texts
mod Dicts
mod Prefixes
mod Order
pub use Prefixes.*
pub use Order.{member-sorted_set, any-member, any_found, any_more}
unfoldable pub use Order.{text_ltb, sort_in, sort, distinct, sorted_set}
pub use Tests.*
pub use Lists.*
pub use Texts.{
  Text, concat, text_eq_iff, text_eq_refl, contains_code, starts_with-append, strip_right,
  strip_left,
}
unfoldable pub use Texts.{text_eq, starts_with}
pub use Dicts.{Dict, IsDict, lookup-nil, lookup-insert, lookup-erase, insert-IsDict, member-keys}
unfoldable pub use Dicts.{member, lookup, insert, erase, keys}
pub use Prim.Native.Nat.{ℕ, zero, suc, ◌+◌, ◌-◌, ◌*◌, ◌/◌, ◌%◌, ◌≤◌, ◌<◌}
pub use Prim.Native.String.{String}
pub use mathlib.Core.Path.{◌≡◌, refl, sym, ap, ◌∙◌}
pub use mathlib.Core.Logic.{◌≢◌, ◌↔◌, ◌⊎◌, inl, inr}
pub use mathlib.Core.Bool.{Bool, true, false, ◌&&◌, ◌||◌, not}
pub use mathlib.Core.Option.{Option, none, some}
pub use mathlib.Core.List.{List, [], ◌∷◌, ◌++◌, map, append-nil, append_assoc}
pub use native.Mathlib.Omega.{arith}
