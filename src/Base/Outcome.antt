-- ===== src/Base/Outcome.antt =====
-- What a run of the source's code comes to: a value, an early `return Err(..)`, or a panic (an
-- index or a slice out of bounds). `stalled` is a loop that its fuel did not see to the end.
use mathlib.Core.Logic.{◌≢◌}
use mathlib.Core.Path.{sym, ◌∙◌, ◌≡◌, refl, ap}
use odd_box.Base.Lists.{
  take-append_le, drop-append_le, length-append, length-drop, get_elem?-append_lt, get_elem?-get_or,
  get_or, length, get_elem?, take, drop,
}
use native.Mathlib.Omega.{arith}
use mathlib.Core.List.{◌++◌, List}
use Prim.Native.Nat.{ℕ, ◌-◌, ◌≤◌, ◌<◌}
use mathlib.Core.Bool.{Bool, true, false, ◌&&◌}
use mathlib.Core.Option.{Option, none, some}
use odd_box.Base.Tests.{leb, le→leb, if◌then◌else◌}

pub data Exec {ℓ κ} (E : Type ℓ) (A : Type κ) : Type (ℓ ⊔ κ) where
  ok : A → Exec E A
  err : E → Exec E A
  panic : Exec E A
  stalled : Exec E A

infixl 5 ◌>>=◌ ◌>>◌
abbrev pub ◌>>=◌ {ℓ κ μ} :
    {E : Type ℓ} {A : Type κ} {B : Type μ} → Exec E A → (A → Exec E B) → Exec E B
ok a >>= f = f a
err e >>= f = err e
panic >>= f = panic
stalled >>= f = stalled

abbrev pub ◌>>◌ {ℓ κ} : {E : Type ℓ} {B : Type κ} → Exec E (Unit {0}) → Exec E B → Exec E B
m >> k = m >>= λ _. k

-- `if test { return Err(e) }`
abbrev pub fail_if {ℓ} : {E : Type ℓ} → Bool → E → Exec E (Unit {0})
fail_if true e = err e
fail_if false e = ok tt

-- `list[i]`
abbrev pub from_option {ℓ κ} : {E : Type ℓ} {A : Type κ} → Option A → Exec E A
from_option none = panic
from_option (some a) = ok a

unfoldable pub index {ℓ κ} : {E : Type ℓ} {A : Type κ} → List A → ℕ → Exec E A
index xs i = from_option (get_elem? xs i)

-- `list[lo..hi]`
unfoldable pub slice {ℓ κ} : {E : Type ℓ} {A : Type κ} → List A → ℕ → ℕ → Exec E (List A)
slice xs lo hi = if leb lo hi && leb hi (length xs) then ok (take (hi - lo) (drop lo xs)) else panic

-- The run ends by itself, with no panic.
abbrev pub IsSafe {ℓ κ} : {E : Type ℓ} {A : Type κ} → Exec E A → Type 0
IsSafe (ok a) = Unit
IsSafe (err e) = Unit
IsSafe panic = ⊥
IsSafe stalled = ⊥

-- To split on a run and keep the equation.
pub data Ends {ℓ κ} {E : Type ℓ} {A : Type κ} (m : Exec E A) : Type (ℓ ⊔ κ) where
  ends_ok : (a : A) → m ≡ ok a → Ends m
  ends_err : (e : E) → m ≡ err e → Ends m
  ends_panic : m ≡ panic → Ends m
  ends_stalled : m ≡ stalled → Ends m

pub Exec-cases {ℓ κ} : {E : Type ℓ} {A : Type κ} (m : Exec E A) → Ends m
Exec-cases (ok a) = ends_ok a refl
Exec-cases (err e) = ends_err e refl
Exec-cases panic = ends_panic refl
Exec-cases stalled = ends_stalled refl

module _ {ℓ κ μ} {E : Type ℓ} {A : Type κ} {B : Type μ} where
  pub bind-IsSafe :
      (m : Exec E A) (f : A → Exec E B)
      → IsSafe m
      → ((a : A) → m ≡ ok a → IsSafe (f a))
      → IsSafe (m >>= f)
  bind-IsSafe (ok a) f h k = k a refl
  bind-IsSafe (err e) f h k = tt
  bind-IsSafe panic f h k = h
  bind-IsSafe stalled f h k = h

  pub bind-eq-ok :
      (first : Exec E A) (next : A → Exec E B) {result : B}
      → (first >>= next) ≡ ok result
      → (value : A) × (first ≡ ok value) × (next value ≡ ok result)
  bind-eq-ok panic next ended = cc
  bind-eq-ok stalled next ended = cc
  bind-eq-ok (err e) next ended = cc
  bind-eq-ok (ok value) next ended = (value, refl, ended)

module _ {ℓ κ} {E : Type ℓ} {A : Type κ} where
  pub index-get_or :
      (xs : List A) (i : ℕ) (d : A) → i < length xs → index {E = E} xs i ≡ ok (get_or xs i d)
  unfolding index
  index-get_or xs i d h = ap from_option (get_elem?-get_or xs i d h)

  pub index-append :
      (xs ys : List A) (i : ℕ) → i < length xs → index {E = E} (xs ++ ys) i ≡ index xs i
  unfolding index
  index-append xs ys i h = ap from_option (get_elem?-append_lt xs ys i h)

  pub slice-le :
      (xs : List A) (lo hi : ℕ)
      → lo ≤ hi
      → hi ≤ length xs
      → slice {E = E} xs lo hi ≡ ok (take (hi - lo) (drop lo xs))
  unfolding slice
  slice-le xs lo hi h k = rw (le→leb lo hi h, le→leb hi (length xs) k)

  pub slice-append :
      (xs ys : List A) (lo hi : ℕ)
      → lo ≤ hi
      → hi ≤ length xs
      → slice {E = E} (xs ++ ys) lo hi ≡ slice xs lo hi
  slice-append xs ys lo hi h k =
      let fits : hi - lo ≤ length (drop lo xs) = omega (arith, length-drop lo xs) in
      slice-le (xs ++ ys) lo hi h (omega (arith, length-append xs ys))
      ∙ ap (λ d. ok (take (hi - lo) d)) (drop-append_le lo xs ys (omega arith))
      ∙ ap ok (take-append_le (hi - lo) (drop lo xs) ys fits)
      ∙ sym (slice-le xs lo hi h k)

module _ {ℓ κ μ} {E : Type ℓ} {A : Type κ} {B : Type μ} where
  pub map-ne-stalled : (m : Exec E A) (f : A → B) → m ≢ stalled → (m >>= λ a. ok (f a)) ≢ stalled
  map-ne-stalled (ok a) f h e = cc
  map-ne-stalled (err x) f h e = cc
  map-ne-stalled panic f h e = cc
  map-ne-stalled stalled f h e = h refl

pub map-id {ℓ κ} : {E : Type ℓ} {A : Type κ} (m : Exec E A) → (m >>= λ a. ok a) ≡ m
map-id (ok a) = refl
map-id (err x) = refl
map-id panic = refl
map-id stalled = refl

pub map-map {ℓ κ μ ν} :
    {E : Type ℓ} {A : Type κ} {B : Type μ} {C : Type ν} (m : Exec E A) (f : A → B) (g : B → C)
    → ((m >>= λ a. ok (f a)) >>= λ b. ok (g b)) ≡ (m >>= λ a. ok (g (f a)))
map-map (ok a) f g = refl
map-map (err x) f g = refl
map-map panic f g = refl
map-map stalled f g = refl

pub ok-injective {ℓ κ} :
    {E : Type ℓ} {A : Type κ} {a b : A} → ◌≡◌ {A = Exec E A} (ok a) (ok b) → a ≡ b
ok-injective h = cc

module _ {ℓ κ μ} {E : Type ℓ} {A : Type κ} {B : Type μ} where
  pub bind-ne-stalled :
      (m : Exec E A) (f : A → Exec E B)
      → m ≢ stalled
      → ((a : A) → f a ≢ stalled)
      → (m >>= f) ≢ stalled
  bind-ne-stalled (ok a) f h k e = k a e
  bind-ne-stalled (err x) f h k e = cc
  bind-ne-stalled panic f h k e = cc
  bind-ne-stalled stalled f h k e = h refl

pub IsSafe-ne-stalled {ℓ κ} : {E : Type ℓ} {A : Type κ} (m : Exec E A) → IsSafe m → m ≢ stalled
IsSafe-ne-stalled (ok a) h e = cc
IsSafe-ne-stalled (err x) h e = cc
IsSafe-ne-stalled panic h e = h
IsSafe-ne-stalled stalled h e = h
