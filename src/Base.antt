-- ===== src/Base.antt =====
-- Names and helpers that the other modules share: Boolean tests on the native numbers, texts as
-- lists of bytes, lists measured by native numbers, and results of code that may throw.
mod Tests
mod Lists
mod Texts
mod Outcome
pub mod Dict
pub use Tests.*
pub use Lists.*
pub use Outcome.*
unfoldable pub use Texts.{
  Text, codes, text_eq, text_ltb, ends_with, starts_with, decimal, byte_of, c_str, HasNoNul,
}
pub use Texts.{
  text_eq_iff, text_eq_refl, text_eq_sym, ends_with_iff, ends_with-append, c_str-append, c_str_self,
  drop_past, c_str-HasNoNul, starts_with_iff,
}
pub use Prim.Native.Nat.{ℕ, zero, suc, ◌+◌, ◌-◌, ◌*◌, ◌/◌, ◌%◌, ◌^◌, ◌≤◌, ◌<◌}
pub use mathlib.Core.Path.{◌≡◌, refl, sym, ap, ◌∙◌, subst}
pub use mathlib.Core.Logic.{◌≢◌, ◌↔◌, ◌⊎◌, inl, inr}
pub use mathlib.Core.Bool.{Bool, true, false, not, ◌&&◌, ◌||◌}
pub use mathlib.Core.Option.{Option, none, some}
pub use mathlib.Core.List.{List, [], ◌∷◌, ◌++◌, map}
pub use native.Mathlib.Omega.{arith}
