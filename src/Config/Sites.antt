-- ===== src/Config/Sites.antt =====
-- The current version of the configuration: src/configuration/v3.rs, and the types of src/configuration/mod.rs
-- that every version shares. A `ProcId` is a number, an `IpAddr` its text.
use odd_box.Base.{none, ◌&&◌, ◌||◌, [], some, ◌∷◌, List, false, true, Bool, Bytes, Option, ℕ}

-- `EnvVar`
pub record EnvVar : Type 0 where
  pub key : Bytes
  pub value : Bytes

pub data LogFormat : Type 0 where
  standard dotnet : LogFormat

pub data LogLevel : Type 0 where
  trace_level debug_level info_level warn_level error_level : LogLevel

pub data Hint : Type 0 where
  h2 h2c h2cpk h1 h3 : Hint

pub record DirServer : Type 0 where
  pub dir : Bytes
  pub host_name : Bytes
  pub capture_subdomains : Option Bool
  pub enable_lets_encrypt : Option Bool
  pub enable_directory_browsing : Option Bool
  pub redirect_to_https : Option Bool
  pub render_markdown : Option Bool
  pub cache_control_max_age_in_seconds : Option ℕ

pub record InProcessSiteConfig : Type 0 where
  pub proc_id : ℕ
  pub active_port : Option ℕ
  pub terminate_tls : Option Bool
  pub terminate_http : Option Bool
  pub hints : Option (List Hint)
  pub host_name : Bytes
  pub dir : Option Bytes
  pub bin : Bytes
  pub args : Option (List Bytes)
  pub env_vars : Option (List EnvVar)
  pub log_format : Option LogFormat
  pub auto_start : Option Bool
  pub port : Option ℕ
  pub https : Option Bool
  pub capture_subdomains : Option Bool
  pub forward_subdomains : Option Bool
  pub exclude_from_start_all : Option Bool
  pub enable_lets_encrypt : Option Bool
  pub log_level : Option LogLevel
  pub redirect_to_https : Option Bool

pub record FullyResolved : Type 0 where
  pub excluded_from_start_all : Bool
  pub proc_id : ℕ
  pub active_port : Option ℕ
  pub terminate_tls : Option Bool
  pub hints : Option (List Hint)
  pub host_name : Bytes
  pub dir : Option Bytes
  pub bin : Bytes
  pub args : Option (List Bytes)
  pub env_vars : Option (List EnvVar)
  pub log_format : Option LogFormat
  pub log_level : Option LogLevel
  pub auto_start : Option Bool
  pub port : Option ℕ
  pub https : Option Bool
  pub capture_subdomains : Option Bool
  pub forward_subdomains : Option Bool

pub record Backend : Type 0 where
  pub address : Bytes
  pub port : ℕ
  pub https : Option Bool
  pub hints : Option (List Hint)

pub record RemoteSiteConfig : Type 0 where
  pub host_name : Bytes
  pub backends : List Backend
  pub capture_subdomains : Option Bool
  pub terminate_tls : Option Bool
  pub terminate_http : Option Bool
  pub forward_subdomains : Option Bool
  pub enable_lets_encrypt : Option Bool
  pub keep_original_host_header : Option Bool
  pub redirect_to_https : Option Bool

-- `OddBoxV3Config`. Its `version` has one value, and is left out.
pub record OddBoxConfig : Type 0 where
  pub path : Option Bytes
  pub root_dir : Option Bytes
  pub log_level : Option LogLevel
  pub alpn : Option Bool
  pub port_range_start : ℕ
  pub default_log_format : LogFormat
  pub ip : Option Bytes
  pub http_port : Option ℕ
  pub tls_port : Option ℕ
  pub auto_start : Option Bool
  pub env_vars : List EnvVar
  pub remote_target : Option (List RemoteSiteConfig)
  pub hosted_process : Option (List InProcessSiteConfig)
  pub dir_server : Option (List DirServer)
  pub lets_encrypt_account_email : Option Bytes
  pub odd_box_url : Option Bytes
  pub odd_box_password : Option Bytes
  pub use_loopback_ip_for_procs : Option Bool

-- `==` on hints
unfoldable pub hint_eq : Hint → Hint → Bool
hint_eq h2 h2 = true
hint_eq h2c h2c = true
hint_eq h2cpk h2cpk = true
hint_eq h1 h1 = true
hint_eq h3 h3 = true
hint_eq _ _ = false

-- `iter().any(..)`
unfoldable pub any {ℓ} : {A : Type ℓ} → (A → Bool) → List A → Bool
any p [] = false
any p (x ∷ xs) = p x || any p xs

unfoldable pub all {ℓ} : {A : Type ℓ} → (A → Bool) → List A → Bool
all p [] = true
all p (x ∷ xs) = p x && all p xs

-- `unwrap_or_default()`, `unwrap_or(false)`
abbrev pub or_false : Option Bool → Bool
or_false none = false
or_false (some b) = b

-- `iter().flatten()` of an optional list
abbrev pub or_empty {ℓ} : {A : Type ℓ} → Option (List A) → List A
or_empty none = []
or_empty (some xs) = xs
