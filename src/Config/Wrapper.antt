-- ===== src/Config/Wrapper.antt =====
-- `ConfigWrapper` of src/configuration/mod.rs: the configuration with its sites under their host names, the check
-- of a configuration, and the replacement of a site. The texts of the errors are left out but for the host name, and
-- of the sites that share a port only their number is kept. Writing to disk is output.
pub mod Checked
pub mod Replaced
pub mod Found
use odd_box.Base.{
  ◌>>=◌, ◌∷◌, ◌++◌, [], ok, err, some, none, true, false, not, if◌then◌else◌, bytes_eq,
  eq_ignore_case, has_duplicate, insert, map, parse_unsigned, tally, ◌==◌, ◌^◌, Bool, Bytes, Exec,
  List, Option, ℕ,
}
use odd_box.Config.Containers.{ContainerProxyTarget}
use odd_box.Config.Sites.{
  any, or_empty, or_false, DirServer, EnvVar, InProcessSiteConfig, OddBoxConfig, RemoteSiteConfig,
}
use odd_box.Http1.Message.{codes}

pub record ConfigWrapper : Type 0 where
  pub internal_configuration : OddBoxConfig
  pub remote_sites : List (Bytes × RemoteSiteConfig)
  pub hosted_processes : List (Bytes × InProcessSiteConfig)
  pub docker_containers : List (Bytes × ContainerProxyTarget)
  pub wrapper_cache_map_is_dirty : Bool
  pub internal_version : ℕ

-- The loops that put each site under its name.
unfoldable pub by_name {ℓ} :
    {A : Type ℓ} → (A → Bytes) → List A → List (Bytes × A) → List (Bytes × A)
by_name name [] m = m
by_name name (x ∷ xs) m = by_name name xs (insert (name x) x m)

abbrev pub remote_name : RemoteSiteConfig → Bytes
remote_name x = x.host_name

abbrev pub process_name : InProcessSiteConfig → Bytes
process_name x = x.host_name

abbrev pub dir_name : DirServer → Bytes
dir_name x = x.host_name

-- `ConfigWrapper::new`
unfoldable pub new : OddBoxConfig → ConfigWrapper
new config = record {
  internal_configuration = config;
  remote_sites = by_name remote_name (or_empty config.remote_target) [];
  hosted_processes = by_name process_name (or_empty config.hosted_process) [];
  docker_containers = [];
  wrapper_cache_map_is_dirty = false;
  internal_version = 0;
}

unfoldable pub reload_dashmaps : ConfigWrapper → ConfigWrapper
reload_dashmaps w = record w {
  remote_sites = by_name remote_name (or_empty w.internal_configuration.remote_target) [];
  hosted_processes = by_name process_name (or_empty w.internal_configuration.hosted_process) [];
  wrapper_cache_map_is_dirty = false;
}

abbrev pub values_or_none {ℓ} : {A : Type ℓ} → List (Bytes × A) → Option (List A)
values_or_none [] = none
values_or_none (e ∷ es) = some (map (λ p. p.1) (e ∷ es))

-- The maps are walked in the order of their lists.
unfoldable pub persist : ConfigWrapper → ConfigWrapper
persist w = record w {
  internal_configuration = record (w.internal_configuration) {
    remote_target = values_or_none w.remote_sites;
    hosted_process = values_or_none w.hosted_processes;
  };
  wrapper_cache_map_is_dirty = false;
}

-- The reasons for which a configuration is refused.
pub data Invalid : Type 0 where
  global_port duplicate_host_names duplicate_ports : Invalid
  lets_encrypt_in_tunnel lets_encrypt_with_subdomains port_variable_differs : Bytes → Invalid

abbrev pub is_port : EnvVar → Bool
is_port v = eq_ignore_case v.key (codes "port")

unfoldable pub check_lets_encrypt :
    Bytes → Option Bool → Option Bool → Option Bool → Exec Invalid (Unit {0})
check_lets_encrypt host_name enabled terminate_tls capture_subdomains =
    if or_false enabled
    then (if not (or_false terminate_tls)
        then err (lets_encrypt_in_tunnel host_name)
        else if or_false capture_subdomains
        then err (lets_encrypt_with_subdomains host_name)
        else ok tt)
    else ok tt

-- The variables that set the port: one that is no number is passed over.
unfoldable pub check_variables : Bytes → ℕ → List EnvVar → Exec Invalid (Unit {0})
check_variables host_name port [] = ok tt
check_variables host_name port (v ∷ vs) =
    let rest = check_variables host_name port vs in
    if is_port v
    then elim (parse_unsigned (2 ^ 16) v.value) [
      | none ↦ rest
      | some p ↦ if p == port then rest else err (port_variable_differs host_name)
    ]
    else rest

abbrev pub check_port : Bytes → Option ℕ → Option (List EnvVar) → Exec Invalid (Unit {0})
check_port host_name none vs = ok tt
check_port host_name (some port) vs = check_variables host_name port (or_empty vs)

unfoldable pub check_remotes : List RemoteSiteConfig → Exec Invalid (Unit {0})
check_remotes [] = ok tt
check_remotes (x ∷ xs) =
    check_lets_encrypt x.host_name x.enable_lets_encrypt x.terminate_tls x.capture_subdomains
    >>= λ _. check_remotes xs

unfoldable pub check_processes : List InProcessSiteConfig → Exec Invalid (Unit {0})
check_processes [] = ok tt
check_processes (x ∷ xs) =
    check_lets_encrypt x.host_name x.enable_lets_encrypt x.terminate_tls x.capture_subdomains
    >>= λ _. check_port x.host_name x.port x.env_vars >>= λ _. check_processes xs

unfoldable pub host_names : OddBoxConfig → List Bytes
host_names cfg =
    map dir_name (or_empty cfg.dir_server)
    ++ (map remote_name (or_empty cfg.remote_target)
        ++ map process_name (or_empty cfg.hosted_process))

unfoldable pub ports : List InProcessSiteConfig → List ℕ
ports [] = []
ports (x ∷ xs) = elim x.port [ none ↦ ports xs | some p ↦ p ∷ ports xs ]

unfoldable pub check_duplicates : List Bytes → List ℕ → Exec Invalid (Unit {0})
check_duplicates names ps =
    if has_duplicate bytes_eq (tally bytes_eq names [])
    then err duplicate_host_names
    else if has_duplicate ◌==◌ (tally ◌==◌ ps [])
    then err duplicate_ports
    else ok tt

unfoldable pub is_valid : OddBoxConfig → Exec Invalid (Unit {0})
is_valid cfg =
    if any is_port cfg.env_vars
    then err global_port
    else (check_remotes (or_empty cfg.remote_target) >>= λ _.
        check_processes (or_empty cfg.hosted_process) >>= λ _.
        check_duplicates (host_names cfg) (ports (or_empty cfg.hosted_process)))

-- `retain(|x| x.host_name != host_name)`
unfoldable pub retain_others {ℓ} : {A : Type ℓ} → (A → Bytes) → Bytes → List A → List A
retain_others name host_name [] = []
retain_others name host_name (x ∷ xs) =
    let rest = retain_others name host_name xs in
    if bytes_eq (name x) host_name then rest else x ∷ rest

-- Out with the sites of two names, and in with the new one behind the others.
abbrev pub replace_in {ℓ} :
    {A : Type ℓ} → (A → Bytes) → Bytes → Bytes → A → Option (List A) → Option (List A)
replace_in name first second item none = some (item ∷ [])
replace_in name first second item (some xs) =
    some (retain_others name second (retain_others name first xs) ++ item ∷ [])

unfoldable pub add_or_replace_hosted_process :
    Bytes → InProcessSiteConfig → OddBoxConfig → OddBoxConfig
add_or_replace_hosted_process hostname item cfg = record cfg {
  hosted_process = replace_in process_name item.host_name hostname item cfg.hosted_process;
}

unfoldable pub add_or_replace_dir_site : Bytes → DirServer → OddBoxConfig → OddBoxConfig
add_or_replace_dir_site old_hostname item cfg = record cfg {
  dir_server = replace_in dir_name old_hostname item.host_name item cfg.dir_server;
}

unfoldable pub add_or_replace_remote_site : Bytes → RemoteSiteConfig → OddBoxConfig → OddBoxConfig
add_or_replace_remote_site hostname item cfg = record cfg {
  remote_target = replace_in remote_name hostname item.host_name item cfg.remote_target;
}
