-- ===== src/Tests/Upgrade.antt =====
-- A configuration of the first version that is upgraded, and one of the current version that is checked.
use odd_box.Base.{
  [], ◌∷◌, ◌≡◌, ok, none, some, true, false, refl, bytes_eq, has_duplicate, increment, lookup,
  tally, ℕ,
}
use odd_box.Config.Old.{h2c_hint, InProcessSiteConfigV1, OddBoxV1Config, RemoteSiteConfigV1}
use odd_box.Config.Sites.{any, standard, InProcessSiteConfig, RemoteSiteConfig}
use odd_box.Config.Upgrade.{
  process_of_v1, process_of_v2, remote_of_v1, remote_of_v2, try_upgrade_to_latest_version, v1, v3,
}
use odd_box.Config.Upgrade.Kept.{processes, remotes, try_upgrade_to_latest_version-keeps}
use odd_box.Config.Upgrade.Modes.{process_of_v2-gate_hosted}
use odd_box.Config.Wrapper.{
  add_or_replace_hosted_process, add_or_replace_remote_site, check_duplicates, check_lets_encrypt,
  check_processes, check_remotes, check_variables, host_names, is_valid, new, ports, process_name,
  remote_name,
}
use odd_box.Config.Wrapper.Checked.{is_valid-IsSound, IsSound}
use odd_box.Config.Wrapper.Found.{is_valid-new, AllFound}
use odd_box.Config.Wrapper.Replaced.{add_or_replace-new}
use odd_box.Http1.Message.{codes}
use odd_box.Routing.Dispatch.{gate_hosted, gate_remote, http_termination_enforced}
use odd_box.Routing.Target.{http_11}
use odd_box.Tests.Fixtures.{blog, config, shop}

abbrev old_shop : InProcessSiteConfigV1
old_shop = record {
  disable_tcp_tunnel_mode = some true;
  h2_hint = some h2c_hint;
  host_name = codes "shop.se";
  dir = [];
  bin = codes "shop";
  args = codes "--port" ∷ [];
  env_vars = [];
  log_format = none;
  auto_start = none;
  port = some 4202;
  https = none;
  capture_subdomains = none;
  forward_subdomains = none;
  disabled = none;
}

abbrev old_remote : RemoteSiteConfigV1
old_remote = record {
  h2_hint = none;
  host_name = codes "far.se";
  target_hostname = codes "10.0.0.1";
  port = none;
  https = some true;
  capture_subdomains = none;
  disable_tcp_tunnel_mode = some true;
  forward_subdomains = none;
}

abbrev old_config : OddBoxV1Config
old_config = record {
  root_dir = none;
  log_level = none;
  alpn = none;
  port_range_start = 4200;
  default_log_format = standard;
  ip = none;
  http_port = none;
  tls_port = none;
  auto_start = none;
  env_vars = [];
  remote_target = some (old_remote ∷ []);
  hosted_process = some (old_shop ∷ []);
  admin_api_port = none;
  path = none;
}

abbrev as_it_is : ℕ → ℕ
as_it_is i = i

try_upgrade_to_latest_version-keeps_example :
    (processes (v3 ((try_upgrade_to_latest_version as_it_is (v1 old_config)).0))
      ≡ record {
        host_name = codes "shop.se";
        bin = codes "shop";
        args = codes "--port" ∷ [];
        env_vars = [];
        dir = [];
        port = some 4202;
        https = none;
      }
        ∷ [])
    × (remotes (v3 ((try_upgrade_to_latest_version as_it_is (v1 old_config)).0))
        ≡ record { host_name = codes "far.se"; backends = (codes "10.0.0.1", 443, some true) ∷ [] }
          ∷ [])
try_upgrade_to_latest_version-keeps_example =
    try_upgrade_to_latest_version-keeps as_it_is (v1 old_config)

process_of_v2-gate_hosted_example :
    (gate_hosted (process_of_v2 1 (process_of_v1 1 old_shop)) true (some http_11) false ≡ none)
    × (gate_remote (remote_of_v2 (remote_of_v1 old_remote)) true (some http_11) false
        ≡ some http_termination_enforced)
unfolding process_of_v1 remote_of_v1
process_of_v2-gate_hosted_example =
    process_of_v2-gate_hosted 1 (process_of_v1 1 old_shop) (remote_of_v1 old_remote) true refl refl

config_valid : is_valid config ≡ ok tt
unfolding is_valid check_remotes check_processes check_lets_encrypt check_variables check_duplicates
    host_names ports tally increment has_duplicate bytes_eq any
config_valid = refl

is_valid-IsSound_example : IsSound config
is_valid-IsSound_example = is_valid-IsSound config config_valid

is_valid-new_example :
    AllFound process_name (new config).hosted_processes (shop ∷ blog ∷ [])
    × AllFound remote_name (new config).remote_sites []
is_valid-new_example = is_valid-new config config_valid

abbrev new_remote : RemoteSiteConfig
new_remote = record {
  host_name = codes "far.se";
  backends = [];
  capture_subdomains = none;
  terminate_tls = none;
  terminate_http = none;
  forward_subdomains = none;
  enable_lets_encrypt = none;
  keep_original_host_header = none;
  redirect_to_https = none;
}

abbrev moved_shop : InProcessSiteConfig
moved_shop = record shop { host_name = codes "store.se" }

add_or_replace-new_example :
    (lookup
        (codes "shop.se")
        (new (add_or_replace_hosted_process (codes "shop.se") moved_shop config)).hosted_processes
      ≡ none)
    × (lookup
          (codes "shop.se")
          (new (add_or_replace_remote_site (codes "shop.se") new_remote config)).remote_sites
        ≡ none)
unfolding bytes_eq
add_or_replace-new_example =
    add_or_replace-new (codes "shop.se") (codes "shop.se") moved_shop new_remote config
