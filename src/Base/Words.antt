-- ===== src/Base/Words.antt =====
-- Bytes and the numbers that they spell. A byte is a number below 256.
use odd_box.Base.Lists.{get_or}
use Prim.Native.Nat.{ℕ, zero, suc, ◌+◌, ◌*◌, ◌<◌, bit_and}
use mathlib.Core.Path.{◌≡◌}
use mathlib.Core.Bool.{Bool, true, not, ◌&&◌}
use mathlib.Core.List.{List, [], ◌∷◌}
use native.Mathlib.Omega.{arith}
use odd_box.Base.Tests.{◌==◌}

abbrev pub Bytes : Type 0
Bytes = List ℕ

abbrev pub AllBytes : Bytes → Type 0
AllBytes [] = Unit
AllBytes (b ∷ bs) = (b < 256) × AllBytes bs

-- `u16::from_be_bytes`, and the same by shifts and `|`
abbrev pub u16_be : ℕ → ℕ → ℕ
u16_be a b = a * 256 + b

abbrev pub u24_be : ℕ → ℕ → ℕ → ℕ
u24_be a b c = (a * 256 + b) * 256 + c

abbrev pub u32_be : ℕ → ℕ → ℕ → ℕ → ℕ
u32_be a b c d = ((a * 256 + b) * 256 + c) * 256 + d

-- `flags & mask != 0`
unfoldable pub has_flag : ℕ → ℕ → Bool
has_flag mask flags = not (bit_and flags mask == 0)

-- A test that holds of every number below a bound, from the top down.
unfoldable pub below : (ℕ → Bool) → ℕ → Bool
below test zero = true
below test (suc top) = below test top && test top

pub below-at :
    (test : ℕ → Bool) (bound : ℕ) {k : ℕ} → k < bound → below test bound ≡ true → test k ≡ true
unfolding below
below-at test zero inside held = absurd (omega arith)
below-at test (suc top) {k} inside held = ground (arith, below-at test top {k = k})

pub AllBytes-get_or : (bs : Bytes) (i : ℕ) → AllBytes bs → get_or bs i 0 < 256
AllBytes-get_or [] i h = omega arith
AllBytes-get_or (b ∷ bs) zero h = h.0
AllBytes-get_or (b ∷ bs) (suc i) h = AllBytes-get_or bs i h.1
