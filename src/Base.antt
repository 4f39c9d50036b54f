-- ===== src/Base.antt =====
-- The vocabulary that the components share: the library's names passed on, tests on numbers, lists
-- measured by native numbers, and the outcomes of code that may return early, panic or run on.
mod Tests
mod Lists
mod Outcome
mod Words
mod Offsets
mod Utf8
mod Xor
mod Ascii
mod Maps
mod Tallies
pub use Tests.*
pub use Lists.*
pub use Outcome.*
pub use Words.*
pub use Offsets.*
pub use Utf8.*
pub use Xor.*
pub use Ascii.*
pub use Maps.*
pub use Tallies.*
unfoldable pub use odd_box.Base.Outcome.{index, slice}
unfoldable pub use odd_box.Base.Words.{has_flag}
unfoldable pub use odd_box.Base.Maps.{lookup, insert, remove}
unfoldable pub use odd_box.Base.Tallies.{occurrences, tally, increment, has_duplicate}
unfoldable pub use odd_box.Base.Utf8.{is_utf8}
unfoldable pub use odd_box.Base.Ascii.{
  to_lower, eq_ignore_case, bytes_eq, contains_ignore_case, is_whitespace, parse_unsigned,
}
pub use Prim.Native.Nat.{
  ℕ, zero, suc, ◌+◌, ◌-◌, ◌*◌, ◌/◌, ◌%◌, ◌^◌, ◌≤◌, ◌<◌, bit_and, bit_xor, min,
}
pub use mathlib.Core.Path.{◌≡◌, refl, sym, ap, ◌∙◌, subst}
pub use mathlib.Core.Logic.{◌≢◌, ◌↔◌, ◌⊎◌, inl, inr}
pub use mathlib.Core.Bool.{Bool, true, false, not, ◌&&◌, ◌||◌}
pub use mathlib.Core.Option.{Option, none, some}
pub use mathlib.Core.List.{List, [], ◌∷◌, ◌++◌, map, append_assoc, append-nil}
pub use native.Mathlib.Omega.{arith}
