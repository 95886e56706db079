-- ===== src/Base.antt =====
-- Names shared by every module: the library's, passed on, and those of the child modules.
mod Tests
mod Lists
mod Strings
pub mod Dict
pub mod Int
pub use Tests.*
pub use Lists.{length, take, drop, length-append, take-append-drop, length-take, length-drop, All}
unfoldable pub use Lists.{select}
pub use Strings.{Text, codes, text_eq_iff, text_eq_refl, has_prefix-append}
unfoldable pub use Strings.{text_eq, has_prefix, cut_byte, trim_space, contains_byte}
pub use Prim.Native.Nat.{min, max, ℕ, zero, suc, ◌+◌, ◌-◌, ◌*◌, ◌/◌, ◌%◌, ◌^◌, ◌≤◌, ◌<◌}
pub use mathlib.Core.Path.{◌≡◌, refl, sym, ap, ◌∙◌}
pub use mathlib.Core.Logic.{◌≢◌, ◌↔◌, ◌⊎◌, inl, inr}
pub use mathlib.Core.Bool.{Bool, true, false, not, ◌&&◌, ◌||◌}
pub use mathlib.Core.Option.{Option, none, some}
pub use mathlib.Core.List.{List, [], ◌∷◌, ◌++◌, map}
pub use native.Mathlib.Omega.{arith}
