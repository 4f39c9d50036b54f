-- ===== src/Tests/Fixtures.antt =====
-- Sites and a ClientHello that several tests share.
use odd_box.Base.{
  false, refl, [], none, some, ◌∷◌, ◌&&◌, ◌-◌, map, leb, if◌then◌else◌, replicate, Bytes, ℕ,
}
use odd_box.Config.Sites.{standard, FullyResolved, InProcessSiteConfig, OddBoxConfig}
use odd_box.Http1.Message.{codes}
use odd_box.Tls.Extension.{TlsExtension, new, into_u16, from_u16, supported_versions}
use odd_box.Tls.ClientHello.{TlsClientHello}
use odd_box.Tls.Encoding.{Envelope, IsHello}
use odd_box.Tls.Routing.{host_extension, AllPassed, IsPassed}

abbrev pub shop : InProcessSiteConfig
shop = record {
  proc_id = 1;
  active_port = none;
  terminate_tls = none;
  terminate_http = none;
  hints = none;
  host_name = codes "shop.se";
  dir = none;
  bin = codes "shop";
  args = none;
  env_vars = none;
  log_format = none;
  auto_start = none;
  port = some 4202;
  https = none;
  capture_subdomains = none;
  forward_subdomains = none;
  exclude_from_start_all = none;
  enable_lets_encrypt = none;
  log_level = none;
  redirect_to_https = none;
}

abbrev pub blog : InProcessSiteConfig
blog = record shop { proc_id = 2; port = none; host_name = codes "blog.se" }

abbrev pub config : OddBoxConfig
config = record {
  path = none;
  root_dir = none;
  log_level = none;
  alpn = none;
  port_range_start = 4200;
  default_log_format = standard;
  ip = none;
  http_port = none;
  tls_port = none;
  auto_start = none;
  env_vars = [];
  remote_target = none;
  hosted_process = some (shop ∷ blog ∷ []);
  dir_server = none;
  lets_encrypt_account_email = none;
  odd_box_url = none;
  odd_box_password = none;
  use_loopback_ip_for_procs = none;
}

abbrev pub blog_resolved : FullyResolved
blog_resolved = record {
  excluded_from_start_all = false;
  proc_id = 2;
  active_port = none;
  terminate_tls = none;
  hints = none;
  host_name = codes "blog.se";
  dir = none;
  bin = codes "blog";
  args = none;
  env_vars = none;
  log_format = none;
  log_level = none;
  auto_start = none;
  port = none;
  https = none;
  capture_subdomains = none;
  forward_subdomains = none;
}

-- The processes, and they run.
abbrev pub running_config : OddBoxConfig
running_config = record config {
  hosted_process =
      some (record shop { active_port = some 4202 } ∷ record blog { active_port = some 4203 } ∷ []);
}

-- `str::to_uppercase` on ASCII.
abbrev pub upper_case : Bytes → Bytes
upper_case = map (λ (b : ℕ). if leb 97 b && leb b 122 then b - 32 else b)

abbrev pub host : Bytes
host = codes "a.se"

abbrev pub versions : TlsExtension
versions = new supported_versions (2 ∷ 3 ∷ 4 ∷ [])

abbrev pub hello : TlsClientHello
hello = record {
  protocol_version = (3, 3);
  random = replicate 32 171;
  session_id = 1 ∷ 254 ∷ [];
  cipher_suites = 0x1301 ∷ 0x1302 ∷ [];
  compression_methods = 0 ∷ [];
  extensions = versions ∷ host_extension host ∷ [];
}

abbrev pub envelope : Envelope
envelope = record { record_version = (3, 1); record_length = (0, 90); message_length = (0, 0, 86) }

pub hello-IsHello : IsHello hello
unfolding into_u16 from_u16
hello-IsHello = record {
  random_length = refl;
  extensions_valid = (record { canonical = refl }, (record { canonical = refl }, tt));
}

pub versions-passed : AllPassed (versions ∷ [])
versions-passed = AllPassed.cons (IsPassed.other_type refl) AllPassed.nil
