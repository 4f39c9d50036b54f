-- ===== src/Config/Wrapper/Found.antt =====
-- The wrapper of a configuration that passes the check has every site under its name.
use odd_box.Base.{
  ◌∷◌, ◌+◌, ◌≤◌, [], ok, some, if◌then◌else◌, refl, ap, ◌∙◌, ◌≡◌, Bool-cases, inl, inr, arith,
  bytes_eq, bytes_eq_refl, lookup, lookup-insert, insert, map, occurrences, Bytes, List,
}
use odd_box.Config.Sites.{or_empty, OddBoxConfig}
use odd_box.Config.Wrapper.{by_name, is_valid, new, process_name, remote_name}
use odd_box.Config.Wrapper.Checked.{is_valid-Passed, names_add, times}

-- The site is one of the list.
data Among {ℓ} {A : Type ℓ} (x : A) : List A → Type ℓ where
  here : {xs : List A} → Among x (x ∷ xs)
  there : {y : A} {xs : List A} → Among x xs → Among x (y ∷ xs)

-- The map has every one of the sites under its name.
abbrev pub AllFound {ℓ} : {A : Type ℓ} → (A → Bytes) → List (Bytes × A) → List A → Type ℓ
AllFound name m [] = Unit
AllFound name m (x ∷ xs) = (lookup (name x) m ≡ some x) × AllFound name m xs

all_found {ℓ} :
    {A : Type ℓ} (name : A → Bytes) (m : List (Bytes × A)) (xs : List A)
    → ((x : A) → Among x xs → lookup (name x) m ≡ some x)
    → AllFound name m xs
all_found name m [] h = tt
all_found name m (x ∷ xs) h = (h x here, all_found name m xs (λ y a. h y (there a)))

module _ {ℓ} {A : Type ℓ} (name : A → Bytes) where
  by_name-absent :
      (n : Bytes) (xs : List A) (m : List (Bytes × A))
      → times n (map name xs) ≡ 0
      → lookup n (by_name name xs m) ≡ lookup n m
  unfolding by_name occurrences
  by_name-absent n [] m h = refl
  by_name-absent n (x ∷ xs) m h = elim (Bool-cases (bytes_eq (name x) n)) [
    | inl it ↦ let never : 1 + times n (map name xs) ≡ 0 = rw it at h in absurd (omega arith)
    | inr other ↦
        by_name-absent n xs (insert (name x) x m) (rw other at h)
        ∙ lookup-insert (name x) n x m
        ∙ ap (λ b. if b then some x else lookup n m) other
  ]

  fewer :
      (n : Bytes) (y : A) (xs : List A)
      → times n (map name (y ∷ xs)) ≤ 1
      → times n (map name xs) ≤ 1
  unfolding occurrences
  fewer n y xs h = ground arith

  by_name-Among :
      {x : A} {xs : List A} (m : List (Bytes × A))
      → Among x xs
      → times (name x) (map name xs) ≤ 1
      → lookup (name x) (by_name name xs m) ≡ some x
  unfolding by_name occurrences
  by_name-Among {x} m (here {xs}) h =
      let once : 1 + times (name x) (map name xs) ≤ 1 = rw (bytes_eq_refl (name x)) at h in
      by_name-absent (name x) xs (insert (name x) x m) (omega arith)
      ∙ lookup-insert (name x) (name x) x m
      ∙ ap (λ b. if b then some x else lookup (name x) m) (bytes_eq_refl (name x))
  by_name-Among {x} m (there {y} {xs} among) h =
      by_name-Among (insert (name y) y m) among (fewer (name x) y xs h)

-- The wrapper that is made of a configuration which passes the check finds each of its hosted processes and each of its
-- remote sites under the site's host name: none takes the place of another.
pub is_valid-new :
    (cfg : OddBoxConfig)
    → is_valid cfg ≡ ok tt
    → AllFound process_name (new cfg).hosted_processes (or_empty cfg.hosted_process)
      × AllFound remote_name (new cfg).remote_sites (or_empty cfg.remote_target)
unfolding new
is_valid-new cfg valid =
    let sound = is_valid-Passed cfg valid in
    (
      all_found process_name _ (or_empty cfg.hosted_process) λ x among.
          let once = sound.names x.host_name in
          by_name-Among process_name [] among (omega (arith, names_add x.host_name cfg, once)),
      all_found remote_name _ (or_empty cfg.remote_target) λ x among.
          let once = sound.names x.host_name in
          by_name-Among remote_name [] among (omega (arith, names_add x.host_name cfg, once)),
    )
