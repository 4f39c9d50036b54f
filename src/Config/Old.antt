-- ===== src/Config/Old.antt =====
-- The versions of the configuration before the current one: src/configuration/legacy.rs, src/configuration/v1.rs and
-- src/configuration/v2.rs. The `version` field of each has one value, and is left out.
use odd_box.Base.{Bytes, Bool, List, Option, ℕ}
use odd_box.Config.Sites.{EnvVar, LogFormat, LogLevel}

pub data H2Hint : Type 0 where
  h2_hint h2c_hint : H2Hint

-- `v1::InProcessSiteConfig`
pub record InProcessSiteConfigV1 : Type 0 where
  pub disable_tcp_tunnel_mode : Option Bool
  pub h2_hint : Option H2Hint
  pub host_name : Bytes
  pub dir : Bytes
  pub bin : Bytes
  pub args : List Bytes
  pub env_vars : List EnvVar
  pub log_format : Option LogFormat
  pub auto_start : Option Bool
  pub port : Option ℕ
  pub https : Option Bool
  pub capture_subdomains : Option Bool
  pub forward_subdomains : Option Bool
  pub disabled : Option Bool

-- `v1::RemoteSiteConfig`
pub record RemoteSiteConfigV1 : Type 0 where
  pub h2_hint : Option H2Hint
  pub host_name : Bytes
  pub target_hostname : Bytes
  pub port : Option ℕ
  pub https : Option Bool
  pub capture_subdomains : Option Bool
  pub disable_tcp_tunnel_mode : Option Bool
  pub forward_subdomains : Option Bool

pub record OddBoxV1Config : Type 0 where
  pub root_dir : Option Bytes
  pub log_level : Option LogLevel
  pub alpn : Option Bool
  pub port_range_start : ℕ
  pub default_log_format : LogFormat
  pub ip : Option Bytes
  pub http_port : Option ℕ
  pub tls_port : Option ℕ
  pub auto_start : Option Bool
  pub env_vars : List EnvVar
  pub remote_target : Option (List RemoteSiteConfigV1)
  pub hosted_process : Option (List InProcessSiteConfigV1)
  pub admin_api_port : Option ℕ
  pub path : Option Bytes

-- `legacy::SiteConfig`
pub record SiteConfig : Type 0 where
  pub host_name : Bytes
  pub path : Bytes
  pub bin : Bytes
  pub args : List Bytes
  pub env_vars : List EnvVar
  pub log_format : Option LogFormat
  pub auto_start : Option Bool
  pub https : Option Bool
  pub capture_subdomains : Option Bool
  pub port : ℕ
  pub h2_hint : Option H2Hint
  pub disable_tcp_tunnel_mode : Option Bool

pub record OddBoxLegacyConfig : Type 0 where
  pub processes : List SiteConfig
  pub env_vars : List EnvVar
  pub root_dir : Option Bytes
  pub log_level : Option LogLevel
  pub port_range_start : ℕ
  pub default_log_format : Option LogFormat
  pub port : Option ℕ
  pub tls_port : Option ℕ
  pub auto_start : Option Bool
  pub ip : Option Bytes
  pub remote_sites : Option (List RemoteSiteConfigV1)

-- `v2::Hint`
pub data HintV2 : Type 0 where
  h2_v2 h2c_v2 h2cpk_v2 noh2 : HintV2

-- `v2::DirServer`
pub record DirServerV2 : Type 0 where
  pub dir : Bytes
  pub host_name : Bytes
  pub capture_subdomains : Option Bool
  pub enable_lets_encrypt : Option Bool
  pub enable_directory_browsing : Option Bool
  pub redirect_to_https : Option Bool
  pub render_markdown : Option Bool

-- `v2::InProcessSiteConfig`
pub record InProcessSiteConfigV2 : Type 0 where
  pub proc_id : ℕ
  pub active_port : Option ℕ
  pub disable_tcp_tunnel_mode : Option Bool
  pub hints : Option (List HintV2)
  pub host_name : Bytes
  pub dir : Option Bytes
  pub bin : Bytes
  pub args : Option (List Bytes)
  pub env_vars : Option (List EnvVar)
  pub log_format : Option LogFormat
  pub auto_start : Option Bool
  pub port : Option ℕ
  pub https : Option Bool
  pub capture_subdomains : Option Bool
  pub forward_subdomains : Option Bool
  pub exclude_from_start_all : Option Bool
  pub enable_lets_encrypt : Option Bool
  pub log_level : Option LogLevel

-- `v2::Backend`
pub record BackendV2 : Type 0 where
  pub address : Bytes
  pub port : ℕ
  pub https : Option Bool
  pub hints : Option (List HintV2)

-- `v2::RemoteSiteConfig`
pub record RemoteSiteConfigV2 : Type 0 where
  pub host_name : Bytes
  pub backends : List BackendV2
  pub capture_subdomains : Option Bool
  pub disable_tcp_tunnel_mode : Option Bool
  pub forward_subdomains : Option Bool
  pub enable_lets_encrypt : Option Bool
  pub keep_original_host_header : Option Bool

pub record OddBoxV2Config : Type 0 where
  pub path : Option Bytes
  pub root_dir : Option Bytes
  pub log_level : Option LogLevel
  pub alpn : Option Bool
  pub port_range_start : ℕ
  pub default_log_format : LogFormat
  pub ip : Option Bytes
  pub http_port : Option ℕ
  pub tls_port : Option ℕ
  pub auto_start : Option Bool
  pub env_vars : List EnvVar
  pub remote_target : Option (List RemoteSiteConfigV2)
  pub hosted_process : Option (List InProcessSiteConfigV2)
  pub dir_server : Option (List DirServerV2)
  pub admin_api_port : Option ℕ
  pub lets_encrypt_account_email : Option Bytes
  pub odd_box_url : Option Bytes
  pub odd_box_password : Option Bytes
