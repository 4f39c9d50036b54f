-- ===== src/Base/Ascii.antt =====
-- ASCII text as bytes: comparison without regard to case, search, and decimal numbers.
use mathlib.Core.Path.{refl, ◌≡◌}
use odd_box.Base.Lists.{drop-append, length-append, drop, length, take}
use odd_box.Base.Tests.{le→leb, ltb, leb, ◌==◌, if◌then◌else◌}
use mathlib.Core.List.{◌++◌, [], ◌∷◌}
use Prim.Native.Nat.{◌-◌, ◌*◌, ◌+◌, ◌<◌, ℕ}
use mathlib.Core.Bool.{false, ◌&&◌, ◌||◌, Bool, true}
use native.Mathlib.Omega.{arith}
use mathlib.Core.Logic.{◌↔◌}
use mathlib.Core.Option.{none, some, Option}
use odd_box.Base.Words.{Bytes}

abbrev within : ℕ → ℕ → ℕ → Bool
within lo hi b = leb lo b && leb b hi

-- `u8::to_ascii_lowercase`
unfoldable pub to_lower : ℕ → ℕ
to_lower b = if within b'A' b'Z' b then b + 32 else b

-- `eq_ignore_ascii_case`
unfoldable pub eq_ignore_case : Bytes → Bytes → Bool
unfolding to_lower
eq_ignore_case [] [] = true
eq_ignore_case (a ∷ as') (b ∷ bs) = (to_lower a == to_lower b) && eq_ignore_case as' bs
eq_ignore_case _ _ = false

-- `==` on bytes
unfoldable pub bytes_eq : Bytes → Bytes → Bool
bytes_eq [] [] = true
bytes_eq (a ∷ as') (b ∷ bs) = (a == b) && bytes_eq as' bs
bytes_eq _ _ = false

-- `ends_with`
abbrev pub ends_with : Bytes → Bytes → Bool
ends_with bytes suffix =
    leb (length suffix) (length bytes)
    && bytes_eq (drop (length bytes - length suffix) bytes) suffix

-- The test at each window as wide as the needle, from the left.
unfoldable pub contains_ignore_case : Bytes → Bytes → Bool
unfolding eq_ignore_case
contains_ignore_case [] needle = eq_ignore_case [] needle
contains_ignore_case (b ∷ bs) needle =
    eq_ignore_case (take (length needle) (b ∷ bs)) needle || contains_ignore_case bs needle

-- `u8::is_ascii_whitespace`
unfoldable pub is_whitespace : ℕ → Bool
is_whitespace b = b == 0x20 || b == 0x09 || b == 0x0A || b == 0x0C || b == 0x0D

-- `str::parse` into an unsigned type with values below `bound`: an optional `+`, then digits.
parse_digits : ℕ → ℕ → Bytes → Option ℕ
parse_digits bound acc [] = some acc
parse_digits bound acc (b ∷ bs) =
    let next = acc * 10 + (b - b'0') in
    let rest = parse_digits bound next bs in
    if within b'0' b'9' b && ltb next bound then rest else none

unfoldable pub parse_unsigned : ℕ → Bytes → Option ℕ
unfolding parse_digits
parse_unsigned bound [] = none
parse_unsigned bound (b ∷ []) = if b == b'+' then none else parse_digits bound 0 (b ∷ [])
parse_unsigned bound (b ∷ c ∷ bs) =
    if b == b'+' then parse_digits bound 0 (c ∷ bs) else parse_digits bound 0 (b ∷ c ∷ bs)

pub bytes_eq_iff : (a b : Bytes) → (bytes_eq a b ≡ true) ↔ (a ≡ b)
unfolding bytes_eq
bytes_eq_iff (x ∷ a) (y ∷ b) = ground (arith, bytes_eq_iff a b)
bytes_eq_iff _ _ = ground arith

parse_digits-lt :
    (bound acc : ℕ) (bs : Bytes) {n : ℕ}
    → acc < bound
    → parse_digits bound acc bs ≡ some n
    → n < bound
unfolding parse_digits
parse_digits-lt bound acc [] {n} h e = ground arith
parse_digits-lt bound acc (b ∷ bs) {n} h e =
    ground (arith, parse_digits-lt bound (acc * 10 + (b - b'0')) bs {n = n})

-- A parsed number is in the range of its type.
pub parse_unsigned-lt :
    (bound : ℕ) (bs : Bytes) {n : ℕ} → 0 < bound → parse_unsigned bound bs ≡ some n → n < bound
unfolding parse_unsigned
parse_unsigned-lt bound [] {n} h e = cc
parse_unsigned-lt bound (b ∷ []) {n} h e = ground (arith, parse_digits-lt bound 0 (b ∷ []) {n = n})
parse_unsigned-lt bound (b ∷ c ∷ bs) {n} h e =
    ground (
      arith,
      parse_digits-lt bound 0 (c ∷ bs) {n = n},
      parse_digits-lt bound 0 (b ∷ c ∷ bs) {n = n},
    )

pub ends_with-append : (front suffix : Bytes) → ends_with (front ++ suffix) suffix ≡ true
ends_with-append front suffix =
    let at_front : length (front ++ suffix) - length suffix ≡ length front =
      omega (arith, length-append front suffix) in
    rw (
      le→leb (length suffix) (length (front ++ suffix)) (omega (arith, length-append front suffix)),
      at_front,
      drop-append front suffix,
      (bytes_eq_iff suffix suffix).1 refl,
    )
