-- ===== src/Config/Upgrade/Kept.antt =====
-- What an upgrade keeps of the sites, in whatever version they were written.
use odd_box.Base.{
  ◌∷◌, [], suc, some, none, map, if◌then◌else◌, refl, ◌∙◌, ◌≡◌, Bytes, Bool, List, Option, ℕ,
}
use odd_box.Config.Sites.{
  or_empty, or_false, Backend, EnvVar, InProcessSiteConfig, RemoteSiteConfig,
}
use odd_box.Config.Old.{
  BackendV2, InProcessSiteConfigV1, InProcessSiteConfigV2, OddBoxLegacyConfig, OddBoxV1Config,
  OddBoxV2Config, RemoteSiteConfigV1, RemoteSiteConfigV2, SiteConfig,
}
use odd_box.Config.Upgrade.{
  backend_of_v2, empty_or_none, legacy, map_numbered, process_of_legacy, process_of_v1,
  process_of_v2, remote_of_v1, remote_of_v2, try_upgrade_to_latest_version, v1, v1_of_legacy, v2,
  v2_of_v1, v3, v3_of_v2, AnyOddBoxConfig,
}
use odd_box.Http1.Message.{or_else}

-- What is started for a process; a list or a directory that is not given is empty.
pub record Started : Type 0 where
  pub host_name : Bytes
  pub bin : Bytes
  pub args : List Bytes
  pub env_vars : List EnvVar
  pub dir : Bytes
  pub port : Option ℕ
  pub https : Option Bool

-- Where a remote site is found.
pub record Reached : Type 0 where
  pub host_name : Bytes
  pub backends : List (Bytes × ℕ × Option Bool)

abbrev pub started : InProcessSiteConfig → Started
started x = record {
  host_name = x.host_name;
  bin = x.bin;
  args = or_empty x.args;
  env_vars = or_empty x.env_vars;
  dir = or_else x.dir [];
  port = x.port;
  https = x.https;
}

abbrev pub started_v2 : InProcessSiteConfigV2 → Started
started_v2 x = record {
  host_name = x.host_name;
  bin = x.bin;
  args = or_empty x.args;
  env_vars = or_empty x.env_vars;
  dir = or_else x.dir [];
  port = x.port;
  https = x.https;
}

abbrev pub started_v1 : InProcessSiteConfigV1 → Started
started_v1 x = record {
  host_name = x.host_name;
  bin = x.bin;
  args = x.args;
  env_vars = x.env_vars;
  dir = x.dir;
  port = x.port;
  https = x.https;
}

-- A legacy process has a port only where it speaks HTTPS.
abbrev pub started_legacy : SiteConfig → Started
started_legacy x = record {
  host_name = x.host_name;
  bin = x.bin;
  args = x.args;
  env_vars = x.env_vars;
  dir = x.path;
  port = if or_false x.https then some x.port else none;
  https = x.https;
}

abbrev pub reached : RemoteSiteConfig → Reached
reached x = record {
  host_name = x.host_name;
  backends = map (λ (b : Backend). (b.address, b.port, b.https)) x.backends;
}

abbrev pub reached_v2 : RemoteSiteConfigV2 → Reached
reached_v2 x = record {
  host_name = x.host_name;
  backends = map (λ (b : BackendV2). (b.address, b.port, b.https)) x.backends;
}

-- Without a port, that of the scheme.
abbrev pub reached_v1 : RemoteSiteConfigV1 → Reached
reached_v1 x = record {
  host_name = x.host_name;
  backends =
      (x.target_hostname, or_else x.port (if or_false x.https then 443 else 80), x.https) ∷ [];
}

abbrev pub processes : AnyOddBoxConfig → List Started
processes (legacy c) = map started_legacy c.processes
processes (v1 c) = map started_v1 (or_empty c.hosted_process)
processes (v2 c) = map started_v2 (or_empty c.hosted_process)
processes (v3 c) = map started (or_empty c.hosted_process)

abbrev pub remotes : AnyOddBoxConfig → List Reached
remotes (legacy c) = map reached_v1 (or_empty c.remote_sites)
remotes (v1 c) = map reached_v1 (or_empty c.remote_target)
remotes (v2 c) = map reached_v2 (or_empty c.remote_target)
remotes (v3 c) = map reached (or_empty c.remote_target)

map-map_numbered {ℓ κ μ} :
    {A : Type ℓ} {B : Type κ} {C : Type μ} (f : ℕ → A → B) (g : B → C) (h : A → C) (i : ℕ)
    (xs : List A)
    → ((j : ℕ) (x : A) → g (f j x) ≡ h x)
    → map g (map_numbered f i xs) ≡ map h xs
unfolding map_numbered
map-map_numbered f g h i [] same = refl
map-map_numbered f g h i (x ∷ xs) same = λ k. same i x k ∷ map-map_numbered f g h (suc i) xs same k

map-map {ℓ κ μ} :
    {A : Type ℓ} {B : Type κ} {C : Type μ} (f : A → B) (g : B → C) (h : A → C) (xs : List A)
    → ((x : A) → g (f x) ≡ h x)
    → map g (map f xs) ≡ map h xs
map-map f g h [] same = refl
map-map f g h (x ∷ xs) same = λ k. same x k ∷ map-map f g h xs same k

or_empty-empty_or_none {ℓ} : {A : Type ℓ} (xs : List A) → or_empty (empty_or_none xs) ≡ xs
or_empty-empty_or_none [] = refl
or_empty-empty_or_none (x ∷ xs) = refl

or_else-empty_or_none : (xs : Bytes) → or_else (empty_or_none xs) [] ≡ xs
or_else-empty_or_none [] = refl
or_else-empty_or_none (x ∷ xs) = refl

started-process_of_v1 :
    (id : ℕ) (x : InProcessSiteConfigV1) → started_v2 (process_of_v1 id x) ≡ started_v1 x
unfolding process_of_v1
started-process_of_v1 id x = λ k. record {
  host_name = x.host_name;
  bin = x.bin;
  args = or_empty-empty_or_none x.args k;
  env_vars = or_empty-empty_or_none x.env_vars k;
  dir = or_else-empty_or_none x.dir k;
  port = x.port;
  https = x.https;
}

started-process_of_v2 :
    (id : ℕ) (x : InProcessSiteConfigV2) → started (process_of_v2 id x) ≡ started_v2 x
unfolding process_of_v2
started-process_of_v2 id x = refl

started-process_of_legacy : (x : SiteConfig) → started_v1 (process_of_legacy x) ≡ started_legacy x
unfolding process_of_legacy
started-process_of_legacy x = refl

reached-remote_of_v2 : (x : RemoteSiteConfigV2) → reached (remote_of_v2 x) ≡ reached_v2 x
unfolding remote_of_v2 backend_of_v2
reached-remote_of_v2 x = λ k. record {
  host_name = x.host_name;
  backends =
      map-map backend_of_v2 (λ (b : Backend). (b.address, b.port, b.https))
        (λ (b : BackendV2). (b.address, b.port, b.https)) x.backends (λ b. refl) k;
}

reached-remote_of_v1 : (x : RemoteSiteConfigV1) → reached_v2 (remote_of_v1 x) ≡ reached_v1 x
unfolding remote_of_v1
reached-remote_of_v1 x = refl

module _ (new_id : ℕ → ℕ) where
  v2-kept :
      (c : OddBoxV2Config)
      → (processes (v3 (v3_of_v2 new_id c)) ≡ processes (v2 c))
        × (remotes (v3 (v3_of_v2 new_id c)) ≡ remotes (v2 c))
  unfolding v3_of_v2
  v2-kept c = (
    map-map_numbered (λ i. process_of_v2 (new_id i)) started started_v2 0
        (or_empty c.hosted_process) (λ i. started-process_of_v2 (new_id i)),
    map-map remote_of_v2 reached reached_v2 (or_empty c.remote_target) reached-remote_of_v2,
  )

  v1-kept :
      (c : OddBoxV1Config)
      → (processes (v2 (v2_of_v1 new_id c)) ≡ processes (v1 c))
        × (remotes (v2 (v2_of_v1 new_id c)) ≡ remotes (v1 c))
  unfolding v2_of_v1
  v1-kept c = (
    map-map_numbered (λ i. process_of_v1 (new_id i)) started_v2 started_v1 0
        (or_empty c.hosted_process) (λ i. started-process_of_v1 (new_id i)),
    map-map remote_of_v1 reached_v2 reached_v1 (or_empty c.remote_target) reached-remote_of_v1,
  )

  legacy-kept :
      (c : OddBoxLegacyConfig)
      → (processes (v1 (v1_of_legacy c)) ≡ processes (legacy c))
        × (remotes (v1 (v1_of_legacy c)) ≡ remotes (legacy c))
  unfolding v1_of_legacy
  legacy-kept c = (
    map-map process_of_legacy started_v1 started_legacy c.processes started-process_of_legacy,
    refl,
  )

  -- An upgrade of a configuration of any version keeps the processes in their order, each with its host name, binary,
  -- arguments, variables, directory, port and scheme, and the remote sites in theirs, each with its host name and the
  -- addresses, ports and schemes of its backends. A legacy process has a port only where it speaks HTTPS.
  pub try_upgrade_to_latest_version-keeps :
      (c : AnyOddBoxConfig)
      → (processes (v3 ((try_upgrade_to_latest_version new_id c).0)) ≡ processes c)
        × (remotes (v3 ((try_upgrade_to_latest_version new_id c).0)) ≡ remotes c)
  unfolding try_upgrade_to_latest_version
  try_upgrade_to_latest_version-keeps (v3 c) = (refl, refl)
  try_upgrade_to_latest_version-keeps (v2 c) = v2-kept c
  try_upgrade_to_latest_version-keeps (v1 c) =
      let (p, r) = v2-kept (v2_of_v1 new_id c) in let (p', r') = v1-kept c in (p ∙ p', r ∙ r')
  try_upgrade_to_latest_version-keeps (legacy c) =
      let (p, r) = v2-kept (v2_of_v1 new_id (v1_of_legacy c)) in
      let (p', r') = v1-kept (v1_of_legacy c) in
      let (p'', r'') = legacy-kept c in (p ∙ p' ∙ p'', r ∙ r' ∙ r'')
