-- ===== src/Prelude.antt =====
-- The names that every other module takes from here: the libraries', passed on, and those of the
-- children: Boolean tests, lists over the native numbers, texts, and Python's `dict`.
mod Tests
mod Lists
mod Texts
mod Results
pub mod Dict
pub use Tests.*
pub use Lists.*
pub use Results.{Result, ok, err, some_inj, ok_inj}
unfoldable pub use Texts.{text_eq, starts_with, has_part, decimal, digits_value}
pub use Texts.{
  Text, codes, text_eq_iff, text_eq_refl, text_eq-eq-false, digits_value-decimal, Key, key_eq,
  text_key,
}
pub use Prim.Native.Nat.{ℕ, zero, suc, ◌+◌, ◌-◌, ◌*◌, ◌/◌, ◌%◌, ◌≤◌, ◌<◌}
pub use mathlib.Core.Path.{◌≡◌, refl, sym, ap, ◌∙◌}
pub use mathlib.Core.Logic.{◌≢◌, ◌↔◌, ◌⊎◌, inl, inr}
pub use mathlib.Core.Bool.{Bool, true, false, not, ◌&&◌, ◌||◌}
pub use mathlib.Core.Option.{Option, none, some}
pub use mathlib.Core.List.{List, [], ◌∷◌, ◌++◌, map}
pub use native.Mathlib.Omega.{arith}
