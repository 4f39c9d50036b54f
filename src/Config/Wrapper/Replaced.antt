-- ===== src/Config/Wrapper/Replaced.antt =====
-- What the maps of the wrapper hold under each name, and what a replacement changes of that.
use odd_box.Base.{
  ◌∷◌, ◌++◌, [], some, none, true, false, if◌then◌else◌, refl, sym, ap, ◌∙◌, ◌≡◌, Bool-cases,
  both_branches, subst, inl, inr, Bool, bytes_eq, bytes_eq_iff, insert, lookup, lookup-insert, Bool,
  Bytes, List, Option,
}
use odd_box.Config.Sites.{or_empty, InProcessSiteConfig, OddBoxConfig, RemoteSiteConfig}
use odd_box.Config.Wrapper.{
  add_or_replace_hosted_process, add_or_replace_remote_site, by_name, new, process_name,
  remote_name, replace_in, retain_others,
}

module _ {ℓ} {A : Type ℓ} (name : A → Bytes) where
  by_name-lookup :
      (n : Bytes) (xs : List A) (m m' : List (Bytes × A))
      → lookup n m ≡ lookup n m'
      → lookup n (by_name name xs m) ≡ lookup n (by_name name xs m')
  unfolding by_name
  by_name-lookup n [] m m' e = e
  by_name-lookup n (x ∷ xs) m m' e =
      by_name-lookup n xs (insert (name x) x m) (insert (name x) x m') (
        lookup-insert (name x) n x m
        ∙ ap (λ o. if bytes_eq (name x) n then some x else o) e
        ∙ sym (lookup-insert (name x) n x m'))

  pub by_name-append :
      (xs ys : List A) (m : List (Bytes × A))
      → by_name name (xs ++ ys) m ≡ by_name name ys (by_name name xs m)
  unfolding by_name
  by_name-append [] ys m = refl
  by_name-append (x ∷ xs) ys m = by_name-append xs ys (insert (name x) x m)

  insert_elsewhere :
      (n : Bytes) (x : A) (m : List (Bytes × A))
      → bytes_eq (name x) n ≡ false
      → lookup n (insert (name x) x m) ≡ lookup n m
  insert_elsewhere n x m e =
      lookup-insert (name x) n x m ∙ ap (λ b. if b then some x else lookup n m) e

  pub by_name-retain_others :
      (n : Bytes) (xs : List A) (m : List (Bytes × A))
      → lookup n (by_name name (retain_others name n xs) m) ≡ lookup n m
  unfolding by_name retain_others
  by_name-retain_others n [] m = refl
  by_name-retain_others n (x ∷ xs) m = elim (Bool-cases (bytes_eq (name x) n)) [
    | inl it ↦ rw it (by_name-retain_others n xs m)
    | inr other ↦
        rw other (by_name-retain_others n xs (insert (name x) x m) ∙ insert_elsewhere n x m other)
  ]

  pub by_name-retain_others_elsewhere :
      (k n : Bytes) (xs : List A) (m : List (Bytes × A))
      → bytes_eq k n ≡ false
      → lookup n (by_name name (retain_others name k xs) m) ≡ lookup n (by_name name xs m)
  unfolding by_name retain_others
  by_name-retain_others_elsewhere k n [] m differ = refl
  by_name-retain_others_elsewhere k n (x ∷ xs) m differ = elim (Bool-cases (bytes_eq (name x) k)) [
    | inl it ↦
        let elsewhere : bytes_eq (name x) n ≡ false =
          ap (λ c. bytes_eq c n) ((bytes_eq_iff (name x) k).0 it) ∙ differ in
        rw it (
          by_name-retain_others_elsewhere k n xs m differ
          ∙ by_name-lookup n xs m (insert (name x) x m) (sym (insert_elsewhere n x m elsewhere)))
    | inr other ↦ rw other (by_name-retain_others_elsewhere k n xs (insert (name x) x m) differ)
  ]

  gone :
      (k n : Bytes) (xs : List A)
      → lookup n (by_name name (retain_others name k xs) [])
        ≡ (if bytes_eq k n then none else lookup n (by_name name xs []))
  unfolding lookup
  gone k n xs = elim (Bool-cases (bytes_eq k n)) [
    | inl same ↦ rw same (
        subst (λ c. lookup n (by_name name (retain_others name c xs) []) ≡ none)
          (sym ((bytes_eq_iff k n).0 same)) (by_name-retain_others n xs []))
    | inr differ ↦ rw differ (by_name-retain_others_elsewhere k n xs [] differ)
  ]

  -- Sites of the two names are gone, and the new one is there.
  replaced :
      (first second : Bytes) (item : A) (n : Bytes) (old : Option (List A))
      → lookup n (by_name name (or_empty (replace_in name first second item old)) []) ≡ (
          if bytes_eq (name item) n
          then some item
          else if bytes_eq second n
          then none
          else if bytes_eq first n
          then none
          else lookup n (by_name name (or_empty old) []))
  unfolding by_name lookup insert
  replaced first second item n none =
      ap (λ o. if bytes_eq (name item) n then some item else o)
        (sym (
          both_branches (λ o. o ≡ none) (bytes_eq second n) none _ refl
            (both_branches (λ o. o ≡ none) (bytes_eq first n) none none refl refl)))
  replaced first second item n (some xs) =
      ap (lookup n)
        (by_name-append (retain_others name second (retain_others name first xs)) (item ∷ []) [])
      ∙ lookup-insert (name item) n item _
      ∙ ap (λ o. if bytes_eq (name item) n then some item else o)
          (gone second n (retain_others name first xs)
            ∙ ap (λ o. if bytes_eq second n then none else o) (gone first n xs))

-- One of the two names is the new site's own.
without_own {ℓ} :
    {A : Type ℓ} (own other : Bool) (item : A) (o : Option A)
    → ((if own then some item else if other then none else if own then none else o)
        ≡ (if own then some item else if other then none else o))
      × ((if own then some item else if own then none else if other then none else o)
          ≡ (if own then some item else if other then none else o))
without_own true other item o = (refl, refl)
without_own false true item o = (refl, refl)
without_own false false item o = (refl, refl)

-- After a hosted process or a remote site was added in place of one of another name, the wrapper that is made of the
-- configuration finds it under its own name, nothing under the other name (unless they are the same), and under every
-- name besides what it found before.
pub add_or_replace-new :
    (hostname n : Bytes) (process : InProcessSiteConfig) (site : RemoteSiteConfig)
    (cfg : OddBoxConfig)
    → (lookup n (new (add_or_replace_hosted_process hostname process cfg)).hosted_processes ≡ (
        if bytes_eq process.host_name n
        then some process
        else if bytes_eq hostname n
        then none
        else lookup n (new cfg).hosted_processes))
      × (lookup n (new (add_or_replace_remote_site hostname site cfg)).remote_sites ≡ (
          if bytes_eq site.host_name n
          then some site
          else if bytes_eq hostname n
          then none
          else lookup n (new cfg).remote_sites))
unfolding new add_or_replace_hosted_process add_or_replace_remote_site
add_or_replace-new hostname n process site cfg = (
  replaced process_name process.host_name hostname process n cfg.hosted_process
      ∙ (without_own (bytes_eq process.host_name n) (bytes_eq hostname n) process _).0,
  replaced remote_name hostname site.host_name site n cfg.remote_target
      ∙ (without_own (bytes_eq site.host_name n) (bytes_eq hostname n) site _).1,
)
