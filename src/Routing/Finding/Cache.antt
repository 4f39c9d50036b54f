-- ===== src/Routing/Finding/Cache.antt =====
-- The cache of targets does not change what is found, as long as the configuration stays as it was.
use odd_box.Base.{
  Option-cases, ◌⊎◌, ◌>>=◌, ok, none, some, true, if◌then◌else◌, bytes_eq, bytes_eq_iff,
  bytes_eq_refl, lookup, lookup-insert, ok-injective, Bool-cases, inl, inr, refl, sym, ap, subst,
  ◌∙◌, ◌≡◌, arith, Exec, Bool, Option, Bytes, ℕ,
}
use odd_box.Config.Backends.{local_address}
use odd_box.Config.Sites.{or_false, or_empty, OddBoxConfig}
use odd_box.Routing.Finding.{
  Containers, TargetCache, Search, store, later_wins, cached, if_alive, find_container, find_hosted,
  find_remote, try_find_site,
}
use odd_box.Routing.Target.{ReverseTcpProxyTarget}
use mathlib.Core.Option.{some-injective}

if_alive-some :
    (has_thread : ℕ → Bool) (u : ReverseTcpProxyTarget) (id : Option ℕ) {t : ReverseTcpProxyTarget}
    → if_alive has_thread u id ≡ some t
    → u ≡ t
if_alive-some has_thread u none {t} e = cc
if_alive-some has_thread u (some id) {t} e = elim (Bool-cases (has_thread id)) [
  | inl alive ↦ some-injective u t (rw alive at e)
  | inr dead ↦ let x = rw dead at e in absurd cc
]

if_alive_lem :
    (has_thread : ℕ → Bool) (t : ReverseTcpProxyTarget) (o : Option ℕ) (id : ℕ)
    → o ≡ some id
    → has_thread id ≡ true
    → if_alive has_thread t o ≡ some t
if_alive_lem has_thread t none id e alive = absurd (cc)
if_alive_lem has_thread t (some j) id e alive = rw (some-injective j id e, alive)

cached-some :
    (has_thread : ℕ → Bool) (o : Option ReverseTcpProxyTarget) {t : ReverseTcpProxyTarget}
    → cached has_thread o ≡ some t
    → o ≡ some t
unfolding cached
cached-some has_thread none {t} e = cc
cached-some has_thread (some u) {t} e = ap some (if_alive-some has_thread u u.proc_id e)

-- What a store changes at any name.
lookup-store :
    (k name : Bytes) (o : Option ReverseTcpProxyTarget) (m : TargetCache)
    → lookup name (store k o m)
      ≡ (if bytes_eq k name then later_wins (lookup name m) o else lookup name m)
lookup-store k name none m = ground arith
lookup-store k name (some t) m = lookup-insert k name t m

later_wins-some :
    (earlier d h r : Option ReverseTcpProxyTarget) {t : ReverseTcpProxyTarget}
    → later_wins (later_wins (later_wins earlier d) h) r ≡ some t
    → (later_wins (later_wins d h) r ≡ none → earlier ≡ some t)
      × ((u : ReverseTcpProxyTarget) → later_wins (later_wins d h) r ≡ some u → u ≡ t)
later_wins-some earlier none none none {t} e = (λ n. e, λ u f. cc)
later_wins-some earlier (some x) none none {t} e =
    (λ n. absurd (cc), λ u f. some-injective u t (sym f ∙ e))
later_wins-some earlier d (some x) none {t} e =
    (λ n. absurd (cc), λ u f. some-injective u t (sym f ∙ e))
later_wins-some earlier d h (some x) {t} e =
    (λ n. absurd (cc), λ u f. some-injective u t (sym f ∙ e))

later_wins-over :
    (earlier d h r : Option ReverseTcpProxyTarget) {t : ReverseTcpProxyTarget}
    → later_wins (later_wins d h) r ≡ some t
    → later_wins (later_wins (later_wins earlier d) h) r ≡ some t
later_wins-over earlier none none none e = absurd (cc)
later_wins-over earlier (some x) none none e = e
later_wins-over earlier d (some x) none e = e
later_wins-over earlier d h (some x) e = e

module _ (to_uppercase : Bytes → Bytes) (cfg : OddBoxConfig) (containers : Containers) where
  -- What each kind of site comes to.
  abbrev in_containers : Bytes → Search
  in_containers requested = find_container to_uppercase requested containers

  abbrev in_processes : Bytes → Search
  in_processes requested =
      find_hosted to_uppercase (local_address (or_false cfg.use_loopback_ip_for_procs)) requested
        (or_empty cfg.hosted_process)

  abbrev in_remotes : Bytes → Search
  in_remotes requested = find_remote to_uppercase requested (or_empty cfg.remote_target)

  -- What a search without a cache finds.
  abbrev pub search : Bytes → Search
  search requested = do
    d ← find_container to_uppercase requested containers
    h ←
        find_hosted to_uppercase (local_address (or_false cfg.use_loopback_ip_for_procs)) requested
          (or_empty cfg.hosted_process)
    r ← find_remote to_uppercase requested (or_empty cfg.remote_target)
    ok (later_wins (later_wins d h) r)

  -- Everything in the cache is what a search would find.
  abbrev pub IsCoherent : TargetCache → Type 0
  IsCoherent cache =
      (name : Bytes) (t : ReverseTcpProxyTarget)
      → lookup name cache ≡ some t
      → search name ≡ ok (some t)

  -- The cache that is left, if any is, is coherent.
  abbrev pub LeavesCoherent : Exec (Unit {0}) (TargetCache × Option ReverseTcpProxyTarget) → Type 0
  LeavesCoherent (ok r) = IsCoherent r.0
  LeavesCoherent _ = Unit

  leaves :
      (r : Exec (Unit {0}) (TargetCache × Option ReverseTcpProxyTarget))
      → ((cache : TargetCache) (o : Option ReverseTcpProxyTarget)
          → r ≡ ok (cache, o)
          → IsCoherent cache)
      → LeavesCoherent r
  leaves (ok r) h = h r.0 r.1 refl
  leaves _ h = tt

  -- The search behind the cache, over what each kind of site came to.
  abbrev behind :
      TargetCache
      → Bytes
      → Search
      → Search
      → Search
      → Exec (Unit {0}) (TargetCache × Option ReverseTcpProxyTarget)
  behind cache requested container hosted remote = do
    d ← container
    h ← hosted
    r ← remote
    ok (
      store requested r (store requested h (store requested d cache)),
      later_wins (later_wins d h) r,
    )

  behind-result :
      (cache : TargetCache) (requested : Bytes) (container hosted remote : Search)
      → (behind cache requested container hosted remote >>= λ p. ok p.1)
        ≡ (do d ← container; h ← hosted; r ← remote; ok (later_wins (later_wins d h) r))
  behind-result cache requested (ok d) (ok h) (ok r) = refl
  behind-result cache requested (ok d) (ok h) _ = refl
  behind-result cache requested (ok d) _ _ = refl
  behind-result cache requested _ _ _ = refl

  behind-lookup :
      (cache : TargetCache) (requested name : Bytes) (container hosted remote : Search)
      {cache' : TargetCache} {o : Option ReverseTcpProxyTarget} {t : ReverseTcpProxyTarget}
      → behind cache requested container hosted remote ≡ ok (cache', o)
      → lookup name cache' ≡ some t
      → ((bytes_eq requested name ≡ true) × (o ≡ some t)) ⊎ (lookup name cache ≡ some t)
  behind-lookup cache requested name (ok d) (ok h) (ok r) {cache'} {o} {t} e l =
      let found : lookup name (store requested r (store requested h (store requested d cache)))
          ≡ some t =
        ap (λ p. lookup name p.0) (ok-injective e) ∙ l in
      let told = ap (λ p. p.1) (ok-injective e) in
      let steps = lookup-store requested name r (store requested h (store requested d cache)) in
      let steps' = lookup-store requested name h (store requested d cache) in
      let steps'' = lookup-store requested name d cache in
      elim (Bool-cases (bytes_eq requested name)) [
        | inl same ↦
            let wins =
              later_wins-some (lookup name cache) d h r
                (rw (steps, steps', steps'', same) at found) in
            elim (Option-cases (later_wins (later_wins d h) r)) [
              | inl nothing ↦ inr (wins.0 nothing)
              | inr (u, some_u) ↦ inl (same, sym told ∙ some_u ∙ ap some (wins.1 u some_u))
            ]
        | inr differ ↦ inr (rw (steps, steps', steps'', differ) at found)
      ]
  behind-lookup cache requested name (ok d) (ok h) _ e l = absurd (cc)
  behind-lookup cache requested name (ok d) _ _ e l = absurd (cc)
  behind-lookup cache requested name _ _ _ e l = absurd (cc)

  find_in :
      (has_thread : ℕ → Bool) (cache : TargetCache) (requested : Bytes)
      → ((t : ReverseTcpProxyTarget) × (cached has_thread (lookup requested cache) ≡ some t)
          × (try_find_site to_uppercase has_thread cfg containers cache requested
              ≡ ok (cache, some t)))
        ⊎ (try_find_site to_uppercase has_thread cfg containers cache requested
            ≡ behind cache requested
                (find_container to_uppercase requested containers)
                (find_hosted to_uppercase
                  (local_address (or_false cfg.use_loopback_ip_for_procs))
                  requested
                  (or_empty cfg.hosted_process))
                (find_remote to_uppercase requested (or_empty cfg.remote_target)))
  unfolding try_find_site
  find_in has_thread cache requested =
      elim (Option-cases (cached has_thread (lookup requested cache))) [
        | inl miss ↦ inr (rw (miss, try_find_site))
        | inr (t, hit) ↦ inl (t, hit, rw (hit, try_find_site))
      ]

  -- Behind a cache in which every entry is what a search would find, for any set of living processes, the target found
  -- is that of a search without a cache (so is a panic), and such is every entry of the cache that is left.
  pub try_find_site-search :
      (has_thread : ℕ → Bool) (cache : TargetCache) (requested : Bytes)
      → IsCoherent cache
      → ((try_find_site to_uppercase has_thread cfg containers cache requested >>= λ p. ok p.1)
          ≡ search requested)
        × LeavesCoherent (try_find_site to_uppercase has_thread cfg containers cache requested)
  try_find_site-search has_thread cache requested coherent =
      elim (find_in has_thread cache requested) [
        | inl (t, hit, found) ↦
            let known =
              coherent requested t (cached-some has_thread (lookup requested cache) hit) in
            (
              ap (λ m. m >>= λ p. ok p.1) found ∙ sym known,
              leaves (try_find_site to_uppercase has_thread cfg containers cache requested)
                  λ cache' o e.
                    let same : cache ≡ cache' = ap (λ p. p.0) (ok-injective (sym found ∙ e)) in
                    subst IsCoherent same coherent,
            )
        | inr searched ↦ (
          ap (λ m. m >>= λ p. ok p.1) searched
              ∙ behind-result cache requested (in_containers requested) (in_processes requested)
                  (in_remotes requested),
          leaves (try_find_site to_uppercase has_thread cfg containers cache requested)
              λ cache' o e name t l.
                let found = sym searched ∙ e in
                elim (behind-lookup cache requested name (in_containers requested)
                  (in_processes requested) (in_remotes requested) found l) [
                    | inl (same, some_t) ↦
                        let here =
                          sym (
                            behind-result cache requested (in_containers requested)
                              (in_processes requested) (in_remotes requested))
                          ∙ ap (λ m. m >>= λ p. ok p.1) found in
                        subst (λ n. search n ≡ ok (some t)) ((bytes_eq_iff requested name).0 same)
                          (here ∙ ap ok some_t)
                    | inr old ↦ coherent name t old
                  ],
        )
      ]

  behind-stores :
      (cache : TargetCache) (requested : Bytes) (container hosted remote : Search)
      {cache' : TargetCache} {t : ReverseTcpProxyTarget}
      → behind cache requested container hosted remote ≡ ok (cache', some t)
      → lookup requested cache' ≡ some t
  behind-stores cache requested (ok d) (ok h) (ok r) {cache'} {t} e =
      let same = bytes_eq_refl requested in
      let steps =
        lookup-store requested requested r (store requested h (store requested d cache)) in
      let steps' = lookup-store requested requested h (store requested d cache) in
      let steps'' = lookup-store requested requested d cache in
      ap (lookup requested) (sym (ap (λ p. p.0) (ok-injective e)))
      ∙ rw (steps, steps', steps'', same)
          (later_wins-over (lookup requested cache) d h r (ap (λ p. p.1) (ok-injective e)))
  behind-stores cache requested (ok d) (ok h) _ e = absurd (cc)
  behind-stores cache requested (ok d) _ _ e = absurd (cc)
  behind-stores cache requested _ _ _ e = absurd (cc)

-- A hosted process that was once found under a name, and whose host thread lives on, is found there as it was then,
-- whatever the configuration and the containers have become: the port that it has been given since is not looked at.
pub try_find_site_stale :
    (to_uppercase : Bytes → Bytes) (has_thread has_thread' : ℕ → Bool) (cfg cfg' : OddBoxConfig)
    (containers containers' : Containers) (cache cache' : TargetCache) (requested : Bytes)
    (t : ReverseTcpProxyTarget) (id : ℕ)
    → try_find_site to_uppercase has_thread cfg containers cache requested ≡ ok (cache', some t)
    → t.proc_id ≡ some id
    → has_thread' id ≡ true
    → try_find_site to_uppercase has_thread' cfg' containers' cache' requested ≡ ok (cache', some t)
unfolding try_find_site cached
try_find_site_stale to_uppercase has_thread has_thread' cfg cfg' containers containers' cache cache'
      requested t id e hosted alive =
    let kept : lookup requested cache' ≡ some t =
      elim (find_in to_uppercase cfg containers has_thread cache requested) [
        | inl (u, hit, found) ↦
            let same = ok-injective (sym found ∙ e) in
            ap (lookup requested) (sym (ap (λ p. p.0) same))
            ∙ cached-some has_thread (lookup requested cache) hit
            ∙ ap (λ p. p.1) same
        | inr searched ↦
            behind-stores to_uppercase cfg containers cache requested
              (in_containers to_uppercase cfg containers requested)
              (in_processes to_uppercase cfg containers requested)
              (in_remotes to_uppercase cfg containers requested) (sym searched ∙ e)
      ] in
    let hit : cached has_thread' (lookup requested cache') ≡ some t =
      ap (cached has_thread') kept ∙ if_alive_lem has_thread' t t.proc_id id hosted alive in
    rw (hit, try_find_site)
