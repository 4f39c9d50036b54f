-- ===== src/Base/Tallies.antt =====
-- How often a key stands in a list, and the counts that code keeps of it.
use odd_box.Base.Tests.{if◌then◌else◌, ltb, not_ltb→le}
use Prim.Native.Nat.{ℕ, ◌+◌, ◌≤◌}
use mathlib.Core.Path.{◌≡◌, refl}
use mathlib.Core.Logic.{◌↔◌}
use mathlib.Core.Bool.{Bool, true, false, ◌||◌}
use mathlib.Core.List.{List, [], ◌∷◌}
use native.Mathlib.Omega.{arith}

module _ {ℓ} {K : Type ℓ} (eq : K → K → Bool) where
  unfoldable pub occurrences : K → List K → ℕ
  occurrences k [] = 0
  occurrences k (x ∷ xs) = let rest = occurrences k xs in if eq x k then 1 + rest else rest

  -- `entry(key).and_modify(|count| *count += 1).or_insert(1)`
  unfoldable pub increment : K → List (K × ℕ) → List (K × ℕ)
  increment k [] = (k, 1) ∷ []
  increment k ((j, n) ∷ m) = if eq j k then (j, n + 1) ∷ m else (j, n) ∷ increment k m

  unfoldable pub tally : List K → List (K × ℕ) → List (K × ℕ)
  tally [] m = m
  tally (x ∷ xs) m = tally xs (increment x m)

  unfoldable pub has_duplicate : List (K × ℕ) → Bool
  has_duplicate [] = false
  has_duplicate ((k, n) ∷ m) = ltb 1 n || has_duplicate m

  count_of : K → List (K × ℕ) → ℕ
  count_of k [] = 0
  count_of k ((j, n) ∷ m) = if eq j k then n else count_of k m

  module _ (law : (a b : K) → (eq a b ≡ true) ↔ (a ≡ b)) where
    count_of-increment :
        (k j : K) (m : List (K × ℕ))
        → count_of k (increment j m) ≡ (if eq j k then 1 + count_of k m else count_of k m)
    unfolding count_of increment
    count_of-increment k j [] = refl
    count_of-increment k j ((i, n) ∷ m) =
        ground (arith, law i j, law i k, law j k, count_of-increment k j m)

    count_of-tally :
        (k : K) (ks : List K) (m : List (K × ℕ))
        → count_of k (tally ks m) ≡ occurrences k ks + count_of k m
    unfolding tally occurrences
    count_of-tally k [] m = omega arith
    count_of-tally k (x ∷ xs) m =
        ground (arith, count_of-tally k xs (increment x m), count_of-increment k x m)

    count_of-has_duplicate : (k : K) (m : List (K × ℕ)) → has_duplicate m ≡ false → count_of k m ≤ 1
    unfolding count_of has_duplicate
    count_of-has_duplicate k [] h = omega arith
    count_of-has_duplicate k ((j, n) ∷ m) h =
        ground (arith, count_of-has_duplicate k m, not_ltb→le 1 n)

    -- Where no count is above one, no key stands twice.
    pub occurrences-has_duplicate :
        (k : K) (ks : List K) → has_duplicate (tally ks []) ≡ false → occurrences k ks ≤ 1
    unfolding count_of
    occurrences-has_duplicate k ks h =
        omega (arith, count_of-tally k ks [], count_of-has_duplicate k (tally ks []) h)
