-- ===== src/Routing/Names/Labels.antt =====
-- A subdomain is cut off at a dot.
use odd_box.Base.{
  Option, Exec, ==_iff, subst, length-drop, take-append, le→not_ltb, take-append-drop, drop, ◌-◌,
  ends_with-append, none, not_ltb→le, bind-eq-ok, ltb, ◌==◌, ◌∙◌, append_assoc, if◌then◌else◌,
  ok-injective, sym, take, [], inr, ◌∷◌, length-append, bytes_eq_iff, arith, inl, Bool-cases, true,
  zero, ap, ends_with, false, refl, suc, ◌⊎◌, some, ◌+◌, length, ok, ℕ, bytes_eq, ◌++◌, ◌≡◌, Bytes,
  index,
}
use mathlib.Core.Option.{some-injective}
use odd_box.Routing.Names.{drop_dot, dot, front_of, get_subdomain, trim_dots}

trim_dots_last : (bs : Bytes) → trim_dots (bs ++ dot ∷ []) ≡ trim_dots bs
unfolding trim_dots
trim_dots_last [] = refl
trim_dots_last (b ∷ bs) = ap (drop_dot b) (trim_dots_last bs)

not_longer : (front bs : Bytes) → bytes_eq (front ++ dot ∷ bs) bs ≡ false
not_longer front bs = elim (Bool-cases (bytes_eq (front ++ dot ∷ bs) bs)) [
  | inl same ↦ absurd (
      omega (
        arith,
        ap length ((bytes_eq_iff (front ++ dot ∷ bs) bs).0 same),
        length-append front (dot ∷ bs),
      ))
  | inr differ ↦ differ
]

index_behind : (front bs : Bytes) → index {E = Unit {0}} (front ++ dot ∷ bs) (length front) ≡ ok dot
unfolding index
index_behind [] bs = refl
index_behind (b ∷ front) bs = index_behind front bs

take_snoc :
    (xs : Bytes) (i b : ℕ)
    → index {E = Unit {0}} xs i ≡ ok b
    → take (suc i) xs ≡ take i xs ++ b ∷ []
unfolding index
take_snoc [] i b e = cc
take_snoc (x ∷ xs) zero b e = ap (λ y. y ∷ []) (ok-injective e)
take_snoc (x ∷ xs) (suc i) b e = ap (◌∷◌ x) (take_snoc xs i b e)

-- Where a subdomain is cut off: the rest is as long as the backend's name, and in front of it is a dot or nothing.
pub record IsCut (requested backend sub : Bytes) : Type 0 where
  pub front : Bytes
  pub rest : Bytes
  pub whole : requested ≡ front ++ rest
  pub as_long : length rest ≡ length backend
  pub at_dot : (front ≡ []) ⊎ ((labels : Bytes) × (front ≡ labels ++ dot ∷ []))
  pub trimmed : sub ≡ trim_dots front

module _ (to_uppercase : Bytes → Bytes) where
  IsCut-behind :
      (requested backend : Bytes) (last b : ℕ) {sub : Bytes}
      → suc last + length backend ≡ length requested
      → index {E = Unit {0}} requested last ≡ ok b
      → ◌≡◌ {A = Exec (Unit {0}) (Option Bytes)}
          (if b == dot then ok (some (trim_dots (take (suc last) requested))) else ok none)
          (ok (some sub))
      → IsCut requested backend sub
  IsCut-behind requested backend last b {sub} h i f = elim (Bool-cases (b == dot)) [
    | inl is_dot ↦ record {
      front = take (suc last) requested;
      rest = drop (suc last) requested;
      whole = sym (take-append-drop (suc last) requested);
      as_long = omega (arith, length-drop (suc last) requested);
      at_dot = inr (
        take last requested,
        take_snoc requested last dot
            (subst (λ c. index {E = Unit {0}} requested last ≡ ok c) ((==_iff b dot).0 is_dot) i),
      );
      trimmed = sym (some-injective _ sub (ok-injective (rw is_dot at f)));
    }
    | inr other ↦ let x = rw other at f in absurd cc
  ]

  front_of-IsCut :
      (requested backend : Bytes) (start : ℕ) {sub : Bytes}
      → start + length backend ≡ length requested
      → front_of to_uppercase requested start ≡ ok (some sub)
      → IsCut requested backend sub
  unfolding front_of trim_dots
  front_of-IsCut requested backend zero {sub} h e = record {
    front = [];
    rest = requested;
    whole = refl;
    as_long = omega arith;
    at_dot = inl refl;
    trimmed = sym (some-injective [] sub (ok-injective e));
  }
  front_of-IsCut requested backend (suc last) {sub} h e =
      let (b, i, f) = bind-eq-ok (index requested last) _ e in
      IsCut-behind requested backend last b h i f

  -- A subdomain is only found where the requested name ends with the backend's name in some case, and what is in front
  -- of that ends with a dot (or is empty); the subdomain is that front without its dots at the end.
  pub get_subdomain-IsCut :
      (requested backend sub : Bytes)
      → get_subdomain to_uppercase requested backend ≡ ok (some sub)
      → IsCut requested backend sub
        × (ends_with (to_uppercase requested) (to_uppercase backend) ≡ true)
  unfolding get_subdomain
  get_subdomain-IsCut requested backend sub e = elim (Bool-cases (bytes_eq requested backend)) [
    | inl same ↦ let x = rw same at e in absurd cc
    | inr differ ↦ elim (Bool-cases (ends_with (to_uppercase requested) (to_uppercase backend))) [
      | inl ends ↦ elim (Bool-cases (ltb (length requested) (length backend))) [
        | inl short ↦ let x = rw (differ, ends, short) at e in absurd cc
        | inr fits ↦ (
          front_of-IsCut requested backend _ (omega (arith, not_ltb→le _ _ fits))
              (rw (differ, ends, fits) at e),
          ends,
        )
      ]
      | inr no_end ↦ let x = rw (differ, no_end) at e in absurd cc
    ]
  ]

  -- The labels in front of a backend's name are found, when upper case is taken letter by letter and the labels do
  -- not end with a dot themselves.
  pub get_subdomain-append :
      (sub backend : Bytes)
      → ((a b : Bytes) → to_uppercase (a ++ b) ≡ to_uppercase a ++ to_uppercase b)
      → trim_dots sub ≡ sub
      → get_subdomain to_uppercase (sub ++ dot ∷ backend) backend ≡ ok (some sub)
  unfolding get_subdomain front_of
  get_subdomain-append sub backend letters t =
      let whole : sub ++ dot ∷ backend ≡ (sub ++ dot ∷ []) ++ backend = rw append_assoc in
      let upper : to_uppercase (sub ++ dot ∷ backend)
          ≡ to_uppercase (sub ++ dot ∷ []) ++ to_uppercase backend =
        ap to_uppercase whole ∙ letters (sub ++ dot ∷ []) backend in
      let ends = ends_with-append (to_uppercase (sub ++ dot ∷ [])) (to_uppercase backend) in
      let size : length (sub ++ dot ∷ backend) - length backend ≡ suc (length sub) =
        omega (arith, length-append sub (dot ∷ backend)) in
      let front = take_snoc (sub ++ dot ∷ backend) (length sub) dot (index_behind sub backend) in
      rw (
        not_longer sub backend,
        upper,
        ends,
        le→not_ltb (length (sub ++ dot ∷ backend)) (length backend)
            (omega (arith, length-append sub (dot ∷ backend))),
        size,
        index_behind sub backend,
        front,
        take-append sub (dot ∷ backend),
        trim_dots_last sub,
        t,
      )
