-- ===== src/Base/Xor.antt =====
-- Masking a byte twice by the same byte changes nothing.
use odd_box.Base.Tests.{ltb, ltb→lt, ◌==◌, ==_iff}
use Prim.Native.Nat.{ℕ, ◌<◌, bit_xor}
use mathlib.Core.Path.{◌≡◌, refl}
use mathlib.Core.Bool.{true}
use odd_box.Base.Words.{below, below-at}

xor_table : below (λ k. below (λ b. bit_xor (bit_xor b k) k == b) 256) 256 ≡ true
unfolding below
xor_table = refl

pub bit_xor_twice : (b k : ℕ) → b < 256 → k < 256 → bit_xor (bit_xor b k) k ≡ b
bit_xor_twice b k hb hk =
    let row = below-at _ 256 hk xor_table in (==_iff _ b).0 (below-at _ 256 hb row)

xor_range : below (λ k. below (λ b. ltb (bit_xor b k) 256) 256) 256 ≡ true
unfolding below
xor_range = refl

pub bit_xor-lt : (b k : ℕ) → b < 256 → k < 256 → bit_xor b k < 256
bit_xor-lt b k hb hk = let row = below-at _ 256 hk xor_range in ltb→lt _ 256 (below-at _ 256 hb row)
