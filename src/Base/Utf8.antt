-- ===== src/Base/Utf8.antt =====
-- `std::str::from_utf8`: the well-formed byte sequences of the Unicode standard. A `String` of the
-- source is the list of its bytes.
use Prim.Native.Nat.{ℕ, zero, suc}
use mathlib.Core.Bool.{Bool, false, ◌&&◌}
use mathlib.Core.List.{[], ◌∷◌}
use mathlib.Core.Option.{Option, none, some}
use odd_box.Base.Tests.{leb, ltb, ◌==◌, if◌then◌else◌}
use odd_box.Base.Words.{Bytes}

abbrev within : ℕ → ℕ → ℕ → Bool
within lo hi b = leb lo b && leb b hi

-- After a lead byte: how many bytes follow, and the range of the first of them.
lead : ℕ → Option (ℕ × ℕ × ℕ)
lead b =
    if ltb b 0x80
    then some (0, 0x80, 0xBF)
    else if within 0xC2 0xDF b
    then some (1, 0x80, 0xBF)
    else if b == 0xE0
    then some (2, 0xA0, 0xBF)
    else if b == 0xED
    then some (2, 0x80, 0x9F)
    else if within 0xE1 0xEF b
    then some (2, 0x80, 0xBF)
    else if b == 0xF0
    then some (3, 0x90, 0xBF)
    else if within 0xF1 0xF3 b
    then some (3, 0x80, 0xBF)
    else if b == 0xF4
    then some (3, 0x80, 0x8F)
    else none

utf8_from : ℕ → ℕ → ℕ → Bytes → Bool
utf8_from need lo hi [] = need == 0
utf8_from zero lo hi (b ∷ rest) = elim (lead b) [
  | none ↦ false
  | some (n, l, h) ↦ utf8_from n l h rest
]
utf8_from (suc n) lo hi (b ∷ rest) = within lo hi b && utf8_from n 0x80 0xBF rest

unfoldable pub is_utf8 : Bytes → Bool
unfolding utf8_from lead
is_utf8 = utf8_from 0 0x80 0xBF

abbrev pub from_utf8 : Bytes → Option Bytes
from_utf8 bytes = if is_utf8 bytes then some bytes else none
