-- ===== src/Config/Ports/Claims.antt =====
-- The ports that the other processes claim are the ones that the choice avoids.
use odd_box.Config.Sites.{InProcessSiteConfig}
use odd_box.Base.{
  [], Bool-cases, ◌==◌, ==_iff, ap, arith, none, ◌∷◌, inr, inl, ◌++◌, true, ◌⊎◌, Option, some, ◌≢◌,
  List, ◌≡◌, ℕ,
}
use odd_box.Config.Ports.{claim, taken_by_others, contains, ports_of_sites}

-- A site that claims a port: it is configured for it, or it runs on it.
pub data Claims (x : InProcessSiteConfig) (p : ℕ) : Type 0 where
  configured : x.port ≡ some p → Claims x p
  running : x.active_port ≡ some p → Claims x p

-- The claim is that of a process other than `id`.
pub data ClaimedByOther (id p : ℕ) : List InProcessSiteConfig → Type 0 where
  first :
      {x : InProcessSiteConfig} {xs : List InProcessSiteConfig}
      → x.proc_id ≢ id
      → Claims x p
      → ClaimedByOther id p (x ∷ xs)
  later :
      {x : InProcessSiteConfig} {xs : List InProcessSiteConfig}
      → ClaimedByOther id p xs
      → ClaimedByOther id p (x ∷ xs)

-- The claims of one site, in front of those of the sites behind it.
module _ (owner id p : ℕ) (rest : List (ℕ × ℕ)) where
  abbrev with_site : Option ℕ → Option ℕ → List ℕ
  with_site a b = taken_by_others id (claim owner a ++ claim owner b ++ rest)

  site_taken :
      (a b : Option ℕ)
      → owner ≢ id
      → (a ≡ some p) ⊎ (b ≡ some p)
      → contains (with_site a b) p ≡ true
  unfolding contains taken_by_others
  site_taken none none n h = ground arith
  site_taken none (some y) n h = ground arith
  site_taken (some x) none n h = ground arith
  site_taken (some x) (some y) n h = ground arith

  site_passed :
      (a b : Option ℕ)
      → contains (taken_by_others id rest) p ≡ true
      → contains (with_site a b) p ≡ true
  unfolding contains taken_by_others
  site_passed none none h = h
  site_passed none (some y) h = ground arith
  site_passed (some x) none h = ground arith
  site_passed (some x) (some y) h = ground arith

  site_claims :
      (a b : Option ℕ)
      → contains (with_site a b) p ≡ true
      → ((owner ≢ id) × ((a ≡ some p) ⊎ (b ≡ some p)))
        ⊎ (contains (taken_by_others id rest) p ≡ true)
  unfolding contains taken_by_others
  site_claims none none h = inr h
  site_claims none (some y) h = elim (Bool-cases (owner == id)) [
    | inl own ↦ inr (rw own at h)
    | inr other ↦ elim (Bool-cases (y == p)) [
      | inl it ↦ inl (λ e. absurd (ground arith), inr (ap some ((==_iff y p).0 it)))
      | inr differ ↦ inr (rw (other, differ) at h)
    ]
  ]
  site_claims (some x) none h = elim (Bool-cases (owner == id)) [
    | inl own ↦ inr (rw own at h)
    | inr other ↦ elim (Bool-cases (x == p)) [
      | inl it ↦ inl (λ e. absurd (ground arith), inl (ap some ((==_iff x p).0 it)))
      | inr differ ↦ inr (rw (other, differ) at h)
    ]
  ]
  site_claims (some x) (some y) h = elim (Bool-cases (owner == id)) [
    | inl own ↦ inr (rw own at h)
    | inr other ↦ elim (Bool-cases (x == p)) [
      | inl it ↦ inl (λ e. absurd (ground arith), inl (ap some ((==_iff x p).0 it)))
      | inr differ ↦ elim (Bool-cases (y == p)) [
        | inl it ↦ inl (λ e. absurd (ground arith), inr (ap some ((==_iff y p).0 it)))
        | inr differ' ↦ inr (rw (other, differ, differ') at h)
      ]
    ]
  ]

-- A site that one of the two options is about claims the port.
site-Claims :
    (x : InProcessSiteConfig) (p : ℕ) → (x.port ≡ some p) ⊎ (x.active_port ≡ some p) → Claims x p
site-Claims x p (inl e) = configured e
site-Claims x p (inr e) = running e

pub contains-ClaimedByOther :
    (id p : ℕ) (xs : List InProcessSiteConfig)
    → contains (taken_by_others id (ports_of_sites xs)) p ≡ true
    → ClaimedByOther id p xs
unfolding ports_of_sites contains taken_by_others
contains-ClaimedByOther id p [] h = absurd (cc)
contains-ClaimedByOther id p (x ∷ xs) h =
    elim (site_claims x.proc_id id p (ports_of_sites xs) x.port x.active_port h) [
      | inl (other, how) ↦ first other (site-Claims x p how)
      | inr onward ↦ later (contains-ClaimedByOther id p xs onward)
    ]

pub ClaimedByOther-contains :
    (id p : ℕ) {xs : List InProcessSiteConfig}
    → ClaimedByOther id p xs
    → contains (taken_by_others id (ports_of_sites xs)) p ≡ true
unfolding ports_of_sites
ClaimedByOther-contains id p (first {x} {xs} n (configured e)) =
    site_taken x.proc_id id p (ports_of_sites xs) x.port x.active_port n (inl e)
ClaimedByOther-contains id p (first {x} {xs} n (running e)) =
    site_taken x.proc_id id p (ports_of_sites xs) x.port x.active_port n (inr e)
ClaimedByOther-contains id p (later {x} {xs} h) =
    site_passed x.proc_id id p (ports_of_sites xs) x.port x.active_port
      (ClaimedByOther-contains id p h)
