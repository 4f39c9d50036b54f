-- ===== src/Routing/Finding/Answers.antt =====
-- A target that is found answers to the name that was asked for.
use odd_box.Base.{
  ◌>>=◌, ok, none, some, true, false, ltb, ltb→lt, bind-eq-ok, ok-injective, inl, inr, refl, sym,
  ap, subst, ◌∙◌, ◌≡◌, ◌<◌, ◌⊎◌, ◌==◌, ==_iff, ◌≢◌, Bool-cases, eq_ignore_case, ends_with, Exec,
  arith, Bool, Option, Bytes, List, [], ◌∷◌, ℕ,
}
use odd_box.Config.Backends.{local_address}
use odd_box.Config.Sites.{or_false, or_empty, OddBoxConfig, InProcessSiteConfig, RemoteSiteConfig}
use odd_box.Http1.Message.{or_else}
use odd_box.Routing.Names.{filter_fun, before_colon, get_subdomain}
use odd_box.Routing.Names.Labels.{get_subdomain-IsCut, IsCut}
use odd_box.Routing.Finding.{
  Containers, Search, TargetCache, later_wins, find_container, find_hosted, find_remote,
  container_target, hosted_target, remote_target_of, contains_bytes, try_find_site,
}
use odd_box.Routing.Finding.Cache.{IsCoherent, search, try_find_site-search}
use odd_box.Routing.Target.{ReverseTcpProxyTarget}
use mathlib.Core.Option.{some-injective}

-- A name that is asked for, without the port behind it.
pub data HasName : Bytes → Bytes → Type 0 where
  whole : HasName [] []
  cut : (port : Bytes) → HasName (b':' ∷ port) []
  letter :
      (b : ℕ) {requested name : Bytes}
      → b ≢ b':'
      → HasName requested name
      → HasName (b ∷ requested) (b ∷ name)

before_colon-HasName : (requested : Bytes) → HasName requested (before_colon requested)
unfolding before_colon
before_colon-HasName [] = whole
before_colon-HasName (b ∷ bs) = elim (Bool-cases (b == b':')) [
  | inl colon ↦ rw ((==_iff b b':').0 colon) (cut bs)
  | inr other ↦ rw other (letter b (λ e. absurd (ground arith)) (before_colon-HasName bs))
]

-- How the name that is asked for stands to a site's: it is the same in some case, or the site takes subdomains, and
-- what stands before the site's name ends with a dot, or is empty, and without the dots at its end is the subdomain.
pub data Matches (to_uppercase : Bytes → Bytes) (name host_name : Bytes) (captures : Bool)
    : Option Bytes → Type 0 where
  itself : eq_ignore_case host_name name ≡ true → Matches to_uppercase name host_name captures none
  below :
      (sub : Bytes)
      → captures ≡ true
      → IsCut name host_name sub
      → ends_with (to_uppercase name) (to_uppercase host_name) ≡ true
      → Matches to_uppercase name host_name captures (some sub)

pub record AnswersTo (to_uppercase : Bytes → Bytes) (requested host_name : Bytes) (captures : Bool)
    (sub_domain : Option Bytes) : Type 0 where
  pub name : Bytes
  pub is_name : HasName requested name
  pub stands : Matches to_uppercase name host_name captures sub_domain

filter_fun-AnswersTo :
    (to_uppercase : Bytes → Bytes) (requested host_name : Bytes) (captures : Bool)
    (sub_domain : Option Bytes)
    → filter_fun to_uppercase requested host_name captures ≡ ok (some sub_domain)
    → AnswersTo to_uppercase requested host_name captures sub_domain
unfolding filter_fun
filter_fun-AnswersTo to_uppercase requested host_name captures sub_domain e =
    let name = before_colon requested in
    let has_name = before_colon-HasName requested in
    elim (Bool-cases (eq_ignore_case host_name name)) [
      | inl same ↦
          let is_none : none ≡ sub_domain =
            some-injective none sub_domain (ok-injective (rw same at e)) in
          record {
            name = name;
            is_name = has_name;
            stands = subst (Matches to_uppercase name host_name captures) is_none (itself same);
          }
      | inr differ ↦ elim (Bool-cases captures) [
        | inr closed ↦ let x = rw (differ, closed) at e in absurd (cc)
        | inl captured ↦
            let (r, found, told) =
              bind-eq-ok (get_subdomain to_uppercase name host_name) _
                (rw (differ, captured) at e) in
            below_name name has_name captured r found told
      ]
    ]
  where
    below_name :
        (name : Bytes)
        → HasName requested name
        → captures ≡ true
        → (r : Option Bytes) → get_subdomain to_uppercase name host_name ≡ ok r
        → ◌≡◌ {A = Exec (Unit {0}) (Option (Option Bytes))}
            (ok (elim r [ none ↦ none | some s ↦ some (some s) ]))
            (ok (some sub_domain))
        → AnswersTo to_uppercase requested host_name captures sub_domain
    below_name name has_name captured none found told = absurd (cc)
    below_name name has_name captured (some s) found told =
        let (cut_off, ends) = get_subdomain-IsCut to_uppercase name host_name s found in
        record {
          name = name;
          is_name = has_name;
          stands =
              subst (Matches to_uppercase name host_name captures)
                (some-injective _ _ (ok-injective told)) (below s captured cut_off ends);
        }

-- The name is the target's own, or lies below it where the target takes subdomains, and the subdomain is the one that
-- is kept. A hosted process has a port.
pub record Answers (to_uppercase : Bytes → Bytes) (requested : Bytes) (t : ReverseTcpProxyTarget)
    : Type 0 where
  pub matches : AnswersTo to_uppercase requested t.host_name t.capture_subdomains t.sub_domain
  pub reachable :
      (y : InProcessSiteConfig) → t.hosted_target_config ≡ some y → 0 < or_else y.active_port 0

module _ (to_uppercase : Bytes → Bytes) (requested : Bytes) where
  find_container-Answers :
      (xs : Containers) {t : ReverseTcpProxyTarget}
      → find_container to_uppercase requested xs ≡ ok (some t)
      → Answers to_uppercase requested t
  unfolding find_container container_target
  find_container-Answers [] e = absurd (cc)
  find_container-Answers ((host_name, x) ∷ xs) {t} e =
      let (r, f, g) = bind-eq-ok (filter_fun to_uppercase requested host_name true) _ e in
      taken r f g (find_container-Answers xs)
    where
      taken :
          (r : Option (Option Bytes))
          → filter_fun to_uppercase requested host_name true ≡ ok r
          → ◌≡◌ {A = Search}
              (elim r [
                | none ↦ find_container to_uppercase requested xs
                | some sub_domain ↦ ok (some (container_target host_name x sub_domain))
              ])
              (ok (some t))
          → (find_container to_uppercase requested xs ≡ ok (some t)
              → Answers to_uppercase requested t)
          → Answers to_uppercase requested t
      taken none f g later = later g
      taken (some sub) f g later =
          subst (Answers to_uppercase requested) (some-injective _ t (ok-injective g)) (record {
            matches = filter_fun-AnswersTo to_uppercase requested _ _ _ f;
            reachable = λ y h. absurd (cc);
          })

  find_hosted-Answers :
      (local_addr : Bytes) (ys : List InProcessSiteConfig) {t : ReverseTcpProxyTarget}
      → find_hosted to_uppercase local_addr requested ys ≡ ok (some t)
      → Answers to_uppercase requested t
  unfolding find_hosted hosted_target
  find_hosted-Answers local_addr [] e = absurd (cc)
  find_hosted-Answers local_addr (y ∷ ys) {t} e =
      let (r, f, g) =
        bind-eq-ok (filter_fun to_uppercase requested y.host_name (or_false y.capture_subdomains)) _
          e in
      taken r (ltb 0 (or_else y.active_port 0)) refl f g (find_hosted-Answers local_addr ys)
    where
      taken :
          (r : Option (Option Bytes)) (has_port : Bool)
          → ltb 0 (or_else y.active_port 0) ≡ has_port
          → filter_fun to_uppercase requested y.host_name (or_false y.capture_subdomains) ≡ ok r
          → ◌≡◌ {A = Search}
              (elim r [
                | none ↦ find_hosted to_uppercase local_addr requested ys
                | some sub_domain ↦ elim has_port [
                  | true ↦ ok (some (hosted_target local_addr y sub_domain))
                  | false ↦ find_hosted to_uppercase local_addr requested ys
                ]
              ])
              (ok (some t))
          → (find_hosted to_uppercase local_addr requested ys ≡ ok (some t)
              → Answers to_uppercase requested t)
          → Answers to_uppercase requested t
      taken none b p f g later = later g
      taken (some sub) false p f g later = later g
      taken (some sub) true p f g later =
          subst (Answers to_uppercase requested) (some-injective _ t (ok-injective g)) (record {
            matches = filter_fun-AnswersTo to_uppercase requested _ _ _ f;
            reachable = λ z h.
                subst (λ (w : InProcessSiteConfig). 0 < or_else w.active_port 0)
                  (some-injective y z h) (ltb→lt 0 _ p);
          })

  find_remote-Answers :
      (ys : List RemoteSiteConfig) {t : ReverseTcpProxyTarget}
      → find_remote to_uppercase requested ys ≡ ok (some t)
      → Answers to_uppercase requested t
  unfolding find_remote remote_target_of
  find_remote-Answers [] e = absurd (cc)
  find_remote-Answers (y ∷ ys) {t} e =
      taken (contains_bytes (to_uppercase requested) (to_uppercase y.host_name)) e
        (find_remote-Answers ys)
    where
      matched :
          (r : Option (Option Bytes))
          → filter_fun to_uppercase requested y.host_name (or_false y.capture_subdomains) ≡ ok r
          → ◌≡◌ {A = Search}
              (elim r [
                | none ↦ find_remote to_uppercase requested ys
                | some sub_domain ↦ ok (some (remote_target_of y sub_domain))
              ])
              (ok (some t))
          → (find_remote to_uppercase requested ys ≡ ok (some t) → Answers to_uppercase requested t)
          → Answers to_uppercase requested t
      matched none f g later = later g
      matched (some sub) f g later =
          subst (Answers to_uppercase requested) (some-injective _ t (ok-injective g)) (record {
            matches = filter_fun-AnswersTo to_uppercase requested _ _ _ f;
            reachable = λ z h. absurd (cc);
          })

      taken :
          (occurs : Bool)
          → ◌≡◌ {A = Search}
              (elim occurs [
                | false ↦ find_remote to_uppercase requested ys
                | true ↦
                    filter_fun to_uppercase requested y.host_name (or_false y.capture_subdomains)
                    >>= λ r. elim r [
                      | none ↦ find_remote to_uppercase requested ys
                      | some sub_domain ↦ ok (some (remote_target_of y sub_domain))
                    ]
              ])
              (ok (some t))
          → (find_remote to_uppercase requested ys ≡ ok (some t) → Answers to_uppercase requested t)
          → Answers to_uppercase requested t
      taken false g later = later g
      taken true g later =
          let (r, f, h) =
            bind-eq-ok
              (filter_fun to_uppercase requested y.host_name (or_false y.capture_subdomains)) _ g in
          matched r f h later

later_wins-one :
    (d h r : Option ReverseTcpProxyTarget) {t : ReverseTcpProxyTarget}
    → later_wins (later_wins d h) r ≡ some t
    → (d ≡ some t) ⊎ ((h ≡ some t) ⊎ (r ≡ some t))
later_wins-one d none none e = inl e
later_wins-one d (some x) none e = inr (inl e)
later_wins-one d h (some x) e = inr (inr e)

-- The target that is found, behind a cache in which every entry is what a search would find, answers to the name
-- without the port behind it: the name is the target's own in some case, and no subdomain is kept; or the target takes
-- subdomains, the name ends with the target's in some case, what is left before it is empty or ends with a dot, and the
-- subdomain that is kept is that front without the dots at its end. A hosted process has a port.
pub try_find_site-Answers :
    (to_uppercase : Bytes → Bytes) (cfg : OddBoxConfig) (containers : Containers)
    (has_thread : ℕ → Bool) (cache cache' : TargetCache) (requested : Bytes)
    (t : ReverseTcpProxyTarget)
    → IsCoherent to_uppercase cfg containers cache
    → try_find_site to_uppercase has_thread cfg containers cache requested ≡ ok (cache', some t)
    → Answers to_uppercase requested t
try_find_site-Answers to_uppercase cfg containers has_thread cache cache' requested t coherent e =
    let same =
      (try_find_site-search to_uppercase cfg containers has_thread cache requested coherent).0 in
    let found : search to_uppercase cfg containers requested ≡ ok (some t) =
      sym same ∙ ap (λ m. m >>= λ p. ok p.1) e in
    let (d, in_d, rest) = bind-eq-ok (find_container to_uppercase requested containers) _ found in
    let (h, in_h, rest') =
      bind-eq-ok
        (find_hosted to_uppercase (local_address (or_false cfg.use_loopback_ip_for_procs)) requested
          (or_empty cfg.hosted_process))
        _ rest in
    let (r, in_r, rest'') =
      bind-eq-ok (find_remote to_uppercase requested (or_empty cfg.remote_target)) _ rest' in
    elim (later_wins-one d h r (ok-injective rest'')) [
      | inl a ↦ find_container-Answers to_uppercase requested containers (in_d ∙ ap ok a)
      | inr (inl b) ↦
          find_hosted-Answers to_uppercase requested _ (or_empty cfg.hosted_process)
            (in_h ∙ ap ok b)
      | inr (inr c) ↦
          find_remote-Answers to_uppercase requested (or_empty cfg.remote_target) (in_r ∙ ap ok c)
    ]
