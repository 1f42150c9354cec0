-- ===== src/Base.antt =====
-- The names that the other modules share: the libraries', passed on, and those of the children.
mod Tests
mod Lists
mod Int
mod Text
mod Sort
mod Errors
mod Print
pub use Tests.*
pub use Lists.*
pub use Int.*
pub use Sort.*
pub use Errors.{Error, not_found, no_schedulable_node, message, Result, ok, err, Result-cases}
unfoldable pub use Int.{◌+ℤ◌, ◌-ℤ◌, ◌*ℤ◌, wrap64, add64, sub64, mul64, div_ℤ}
unfoldable pub use Sort.{insert_stable, slice_stable}
unfoldable pub use Text.{
  codes, is_space, trim_left, trim_right, trim_space, is_blank, lower, to_lower, codes_eq,
  equal_fold, cut_prefix, has_prefix_fold,
}
pub use Text.{str_lt, cut_prefix-append, cut_prefix-some}
unfoldable pub use Print.{decimal, rfc3339_nano}
pub use Prim.Native.Nat.{ℕ, zero, suc, ◌+◌, ◌-◌, ◌*◌, ◌/◌, ◌%◌, ◌^◌, ◌≤◌, ◌<◌, min, max}
pub use Prim.Native.String.{String}
pub use mathlib.Core.Path.{◌≡◌, refl, sym, ap, ap₂, ◌∙◌, subst, fun_ext, ◌≡⟨◌⟩◌, ◌∎}
pub use mathlib.Core.Logic.{◌≢◌, ◌↔◌, ◌⊎◌, inl, inr}
pub use mathlib.Core.Bool.{Bool, true, false, not, ◌&&◌, ◌||◌}
pub use mathlib.Core.Option.{Option, none, some}
pub use mathlib.Core.List.{List, [], ◌∷◌, ◌++◌, map}
pub use native.Mathlib.Omega.{arith}
pub use text.Mathlib.Text.{◌==◌ as str_eq}
pub use text.Mathlib.TextEquality.{eq_iff}
