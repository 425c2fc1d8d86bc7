-- ===== src/Prelude.antt =====
-- The names that every part shares: the libraries', passed on, and those of the children: Boolean
-- tests, lists measured by native numbers, bytes, results that may be an error, and texts.
mod Tests
mod Lists
mod Errors
mod Bytes
mod Texts
mod Utf8
pub use Tests.*
pub use Lists.*
unfoldable pub use Lists.{bytes_eq}
pub use Errors.*
pub use Texts.*
pub use Utf8.{is_utf8-append}
unfoldable pub use Utf8.{is_utf8, utf8}
pub use Bytes.{
  length-reverse, length-to_be_bytes, from_be_bytes-to_be_bytes, to_be_bytes-from_be_bytes,
}
unfoldable pub use Bytes.{to_be_bytes, from_be_bytes}
pub use Prim.Native.Nat.{ℕ, zero, suc, ◌+◌, ◌-◌, ◌*◌, ◌/◌, ◌%◌, ◌^◌, ◌≤◌, ◌<◌, min}
pub use Prim.Native.String.{String}
pub use mathlib.Core.Path.{◌≡◌, refl, sym, ap, ◌∙◌, subst}
pub use mathlib.Core.Logic.{◌≢◌, ◌↔◌, ◌⊎◌, inl, inr}
pub use mathlib.Core.Bool.{Bool, true, false, not, ◌&&◌, ◌||◌}
pub use mathlib.Core.Option.{Option, none, some}
pub use mathlib.Core.List.{List, [], ◌∷◌, ◌++◌, map}
pub use native.Mathlib.Omega.{arith}
pub use text.Mathlib.Text.{◌==◌ as str_eq}
