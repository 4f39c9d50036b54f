-- ===== src/Config/Upgrade.antt =====
-- `TryFrom` between the versions of the configuration, in src/configuration/v1.rs, v2.rs and v3.rs, and
-- `try_upgrade_to_latest_version` of src/configuration/mod.rs. None of them fails. The identifiers that are made for
-- the processes are a parameter: the one that the process in each place is given.
pub mod Kept
pub mod Modes
use odd_box.Base.{
  ◌∷◌, ◌++◌, [], suc, some, none, true, false, map, if◌then◌else◌, Bytes, Bool, List, Option, ℕ,
}
use odd_box.Config.Sites.{
  standard, or_empty, or_false, h1, h2, h2c, h2cpk, Backend, Hint, InProcessSiteConfig,
  OddBoxConfig, RemoteSiteConfig,
}
use odd_box.Config.Old.{
  h2_hint, h2c_hint, h2_v2, h2c_v2, h2cpk_v2, noh2, BackendV2, H2Hint, HintV2,
  InProcessSiteConfigV1, InProcessSiteConfigV2, OddBoxLegacyConfig, OddBoxV1Config, OddBoxV2Config,
  RemoteSiteConfigV1, RemoteSiteConfigV2, SiteConfig,
}
use odd_box.Http1.Message.{or_else}

-- `filter_map` over the hints: one of them is no longer known.
unfoldable pub known_hints : List HintV2 → List Hint
known_hints [] = []
known_hints (h2_v2 ∷ hs) = h2 ∷ known_hints hs
known_hints (h2c_v2 ∷ hs) = h2c ∷ known_hints hs
known_hints (h2cpk_v2 ∷ hs) = h2cpk ∷ known_hints hs
known_hints (noh2 ∷ hs) = known_hints hs

abbrev pub with_h1 : List Hint → Option (List Hint)
with_h1 [] = none
with_h1 (h ∷ hs) = some (h ∷ (hs ++ h1 ∷ []))

-- Where there are hints, HTTP/1 is added to them.
unfoldable pub new_hints : Option (List HintV2) → Option (List Hint)
new_hints hints = with_h1 (known_hints (or_empty hints))

unfoldable pub backend_of_v2 : BackendV2 → Backend
backend_of_v2 b = record {
  address = b.address;
  port = b.port;
  https = b.https;
  hints = new_hints b.hints;
}

unfoldable pub process_of_v2 : ℕ → InProcessSiteConfigV2 → InProcessSiteConfig
process_of_v2 id x = record {
  proc_id = id;
  active_port = none;
  terminate_tls = x.disable_tcp_tunnel_mode;
  terminate_http = none;
  hints = new_hints x.hints;
  host_name = x.host_name;
  dir = x.dir;
  bin = x.bin;
  args = x.args;
  env_vars = x.env_vars;
  log_format = x.log_format;
  auto_start = x.auto_start;
  port = x.port;
  https = x.https;
  capture_subdomains = x.capture_subdomains;
  forward_subdomains = x.forward_subdomains;
  exclude_from_start_all = x.exclude_from_start_all;
  enable_lets_encrypt = some false;
  log_level = none;
  redirect_to_https = none;
}

unfoldable pub remote_of_v2 : RemoteSiteConfigV2 → RemoteSiteConfig
remote_of_v2 x = record {
  host_name = x.host_name;
  backends = map backend_of_v2 x.backends;
  capture_subdomains = x.capture_subdomains;
  terminate_tls = x.disable_tcp_tunnel_mode;
  terminate_http = x.disable_tcp_tunnel_mode;
  forward_subdomains = x.forward_subdomains;
  enable_lets_encrypt = some false;
  keep_original_host_header = none;
  redirect_to_https = none;
}

-- Each process is given an identifier of its own.
unfoldable pub map_numbered {ℓ κ} : {A : Type ℓ} {B : Type κ} → (ℕ → A → B) → ℕ → List A → List B
map_numbered f i [] = []
map_numbered f i (x ∷ xs) = f i x ∷ map_numbered f (suc i) xs

abbrev pub empty_or_none {ℓ} : {A : Type ℓ} → List A → Option (List A)
empty_or_none [] = none
empty_or_none (x ∷ xs) = some (x ∷ xs)

abbrev pub hints_of_v1 : Option H2Hint → Option (List HintV2)
hints_of_v1 (some h2_hint) = some (h2_v2 ∷ [])
hints_of_v1 (some h2c_hint) = some (h2c_v2 ∷ [])
hints_of_v1 none = none

unfoldable pub process_of_v1 : ℕ → InProcessSiteConfigV1 → InProcessSiteConfigV2
process_of_v1 id x = record {
  proc_id = id;
  active_port = none;
  disable_tcp_tunnel_mode = x.disable_tcp_tunnel_mode;
  hints = hints_of_v1 x.h2_hint;
  host_name = x.host_name;
  dir = empty_or_none x.dir;
  bin = x.bin;
  args = empty_or_none x.args;
  env_vars = empty_or_none x.env_vars;
  log_format = x.log_format;
  auto_start = x.auto_start;
  port = x.port;
  https = x.https;
  capture_subdomains = x.capture_subdomains;
  forward_subdomains = x.forward_subdomains;
  exclude_from_start_all = x.disabled;
  enable_lets_encrypt = some false;
  log_level = none;
}

unfoldable pub remote_of_v1 : RemoteSiteConfigV1 → RemoteSiteConfigV2
remote_of_v1 x = record {
  host_name = x.host_name;
  backends =
      record {
        address = x.target_hostname;
        port = or_else x.port (if or_false x.https then 443 else 80);
        https = x.https;
        hints = hints_of_v1 x.h2_hint;
      }
      ∷ [];
  capture_subdomains = x.capture_subdomains;
  disable_tcp_tunnel_mode = x.disable_tcp_tunnel_mode;
  forward_subdomains = x.forward_subdomains;
  enable_lets_encrypt = some false;
  keep_original_host_header = none;
}

-- The port of a legacy process is only taken where it speaks HTTPS.
unfoldable pub process_of_legacy : SiteConfig → InProcessSiteConfigV1
process_of_legacy x = record {
  disable_tcp_tunnel_mode = x.disable_tcp_tunnel_mode;
  h2_hint = x.h2_hint;
  host_name = x.host_name;
  dir = x.path;
  bin = x.bin;
  args = x.args;
  env_vars = x.env_vars;
  log_format = x.log_format;
  auto_start = x.auto_start;
  port = if or_false x.https then some x.port else none;
  https = x.https;
  capture_subdomains = none;
  forward_subdomains = none;
  disabled = none;
}

unfoldable pub v1_of_legacy : OddBoxLegacyConfig → OddBoxV1Config
v1_of_legacy old = record {
  root_dir = old.root_dir;
  log_level = old.log_level;
  alpn = some false;
  port_range_start = old.port_range_start;
  default_log_format = or_else old.default_log_format standard;
  ip = old.ip;
  http_port = old.port;
  tls_port = old.tls_port;
  auto_start = old.auto_start;
  env_vars = old.env_vars;
  remote_target = old.remote_sites;
  hosted_process = some (map process_of_legacy old.processes);
  admin_api_port = none;
  path = none;
}

module _ (new_id : ℕ → ℕ) where
  unfoldable pub v2_of_v1 : OddBoxV1Config → OddBoxV2Config
  v2_of_v1 old = record {
    path = none;
    root_dir = old.root_dir;
    log_level = old.log_level;
    alpn = some false;
    port_range_start = old.port_range_start;
    default_log_format = old.default_log_format;
    ip = old.ip;
    http_port = old.http_port;
    tls_port = old.tls_port;
    auto_start = old.auto_start;
    env_vars = old.env_vars;
    remote_target = some (map remote_of_v1 (or_empty old.remote_target));
    hosted_process =
        some (map_numbered (λ i. process_of_v1 (new_id i)) 0 (or_empty old.hosted_process));
    dir_server = none;
    admin_api_port = none;
    lets_encrypt_account_email = none;
    odd_box_url = none;
    odd_box_password = none;
  }

  unfoldable pub v3_of_v2 : OddBoxV2Config → OddBoxConfig
  v3_of_v2 old = record {
    path = none;
    root_dir = old.root_dir;
    log_level = old.log_level;
    alpn = some false;
    port_range_start = old.port_range_start;
    default_log_format = old.default_log_format;
    ip = old.ip;
    http_port = old.http_port;
    tls_port = old.tls_port;
    auto_start = old.auto_start;
    env_vars = old.env_vars;
    remote_target = some (map remote_of_v2 (or_empty old.remote_target));
    hosted_process =
        some (map_numbered (λ i. process_of_v2 (new_id i)) 0 (or_empty old.hosted_process));
    dir_server = none;
    lets_encrypt_account_email = none;
    odd_box_url = none;
    odd_box_password = none;
    use_loopback_ip_for_procs = none;
  }

pub data AnyOddBoxConfig : Type 0 where
  legacy : OddBoxLegacyConfig → AnyOddBoxConfig
  v1 : OddBoxV1Config → AnyOddBoxConfig
  v2 : OddBoxV2Config → AnyOddBoxConfig
  v3 : OddBoxConfig → AnyOddBoxConfig

pub data OddBoxConfigVersion : Type 0 where
  unmarked version_1 version_2 version_3 : OddBoxConfigVersion

-- The configuration, the version it had, and whether it was upgraded.
unfoldable pub try_upgrade_to_latest_version :
    (ℕ → ℕ) → AnyOddBoxConfig → OddBoxConfig × OddBoxConfigVersion × Bool
try_upgrade_to_latest_version new_id (legacy c) =
    (v3_of_v2 new_id (v2_of_v1 new_id (v1_of_legacy c)), unmarked, true)
try_upgrade_to_latest_version new_id (v1 c) = (v3_of_v2 new_id (v2_of_v1 new_id c), version_1, true)
try_upgrade_to_latest_version new_id (v2 c) = (v3_of_v2 new_id c, version_2, true)
try_upgrade_to_latest_version new_id (v3 c) = (c, version_3, false)
