-- ===== src/Base/Offsets.antt =====
-- Reading a buffer at an offset: the buffer from there on begins with known bytes.
use odd_box.Base.Lists.{length, get_elem?, drop, length-append, take-append}
use odd_box.Base.Lists.{drop-append, drop-drop}
use odd_box.Base.Outcome.{ok, from_option, index, slice, slice-le}
use Prim.Native.Nat.{ℕ, zero, suc, ◌+◌, ◌-◌, ◌≤◌}
use mathlib.Core.Path.{◌≡◌, refl, sym, ap, ◌∙◌}
use mathlib.Core.List.{List, [], ◌∷◌, ◌++◌}
use mathlib.Core.Option.{some}
use native.Mathlib.Omega.{arith}

-- `at` bytes of `xs` are behind the cursor, and `rest` is in front of it.
pub record Cursor {ℓ} {A : Type ℓ} (xs : List A) (at : ℕ) (rest : List A) : Type ℓ where
  pub ahead : drop at xs ≡ rest
  pub total : length xs ≡ at + length rest

module _ {ℓ} {A : Type ℓ} where
  pub Cursor-start : (xs : List A) → Cursor xs 0 xs
  Cursor-start xs = record { ahead = refl; total = omega arith }

  get_elem?-drop :
      (xs : List A) (n : ℕ) (x : A) (rest : List A) → drop n xs ≡ x ∷ rest → get_elem? xs n ≡ some x
  get_elem?-drop [] zero x rest h = cc
  get_elem?-drop [] (suc n) x rest h = cc
  get_elem?-drop (y ∷ xs) zero x rest h = cc
  get_elem?-drop (y ∷ xs) (suc n) x rest h = get_elem?-drop xs n x rest h

  pub Cursor-skip :
      {xs : List A} {at : ℕ} (front rest : List A)
      → Cursor xs at (front ++ rest)
      → Cursor xs (at + length front) rest
  Cursor-skip {xs} {at} front rest c = record {
    ahead =
        sym (drop-drop (length front) at xs)
        ∙ ap (drop (length front)) c.ahead
        ∙ drop-append front rest;
    total = omega (arith, c.total, length-append front rest);
  }

  pub Cursor-next :
      {xs : List A} {at : ℕ} {x : A} {rest : List A}
      → Cursor xs at (x ∷ rest)
      → Cursor xs (at + 1) rest
  Cursor-next {x} {rest} c = Cursor-skip (x ∷ []) rest c

module _ {ℓ κ} {E : Type ℓ} {A : Type κ} where
  pub index-Cursor :
      {xs : List A} {at : ℕ} {x : A} {rest : List A}
      → Cursor xs at (x ∷ rest)
      → index {E = E} xs at ≡ ok x
  unfolding index
  index-Cursor {xs} {at} {x} {rest} c = ap from_option (get_elem?-drop xs at x rest c.ahead)

  pub slice-Cursor :
      {xs : List A} {at : ℕ} (front rest : List A)
      → Cursor xs at (front ++ rest)
      → slice {E = E} xs at (at + length front) ≡ ok front
  slice-Cursor {xs} {at} front rest c =
      let fits : at + length front ≤ length xs = omega (arith, c.total, length-append front rest) in
      let width : at + length front - at ≡ length front = omega arith in
      slice-le xs at (at + length front) (omega arith) fits ∙ rw (width, c.ahead, take-append)
