-- ===== src/Config/Resolve.antt =====
-- `resolve_process_configuration` of src/configuration/mod.rs: the variables in the configuration of a process. What
-- the operating system says of directories is a parameter.
use odd_box.Base.{◌>>=◌, [], ok, err, some, none, if◌then◌else◌, map, Bytes, Exec, Option}
use odd_box.Config.Sites.{or_false, FullyResolved, InProcessSiteConfig}
use odd_box.Http1.Message.{codes}
use odd_box.Process.Launch.{replace}
use odd_box.Routing.Finding.{contains_bytes}

-- The home directory, the directory of the configuration, the current one, and what a path canonically is.
pub record Directories : Type 0 where
  pub home_dir : Option Bytes
  pub cfg_dir : Option Bytes
  pub current_dir : Option Bytes
  pub canonicalize : Bytes → Option Bytes

pub data ResolveError : Type 0 where
  no_home_dir no_cfg_dir no_current_dir root_dir_in_itself root_dir_not_found : ResolveError

abbrev pub or_error {ℓ} : {A : Type ℓ} → ResolveError → Option A → Exec ResolveError A
or_error e none = err e
or_error e (some a) = ok a

unfoldable pub resolve_root_dir :
    Directories → Bytes → Bytes → Option Bytes → Exec ResolveError Bytes
resolve_root_dir os home cfg none = or_error no_current_dir os.current_dir
resolve_root_dir os home cfg (some rd) =
    if contains_bytes rd (codes "$root_dir")
    then err root_dir_in_itself
    else (or_error root_dir_not_found
          (os.canonicalize (replace (replace rd (codes "$cfg_dir") cfg) (codes "~") home))
        >>= λ path. ok (replace path (codes "\\\\?\\") []))

unfoldable pub with_vars : Bytes → Bytes → Bytes → Bytes → Bytes
with_vars root cfg home x =
    replace (replace (replace x (codes "$root_dir") root) (codes "$cfg_dir") cfg) (codes "~") home

abbrev pub map_option {ℓ κ} : {A : Type ℓ} {B : Type κ} → (A → B) → Option A → Option B
map_option f none = none
map_option f (some a) = some (f a)

-- The resolved process, with the variables written out where they may stand.
unfoldable pub resolved_with : (Bytes → Bytes) → InProcessSiteConfig → FullyResolved
resolved_with vars x = record {
  excluded_from_start_all = or_false x.exclude_from_start_all;
  proc_id = x.proc_id;
  active_port = x.active_port;
  terminate_tls = x.terminate_tls;
  hints = x.hints;
  host_name = x.host_name;
  dir = map_option vars x.dir;
  bin = vars x.bin;
  args = map_option (map vars) x.args;
  env_vars = x.env_vars;
  log_format = x.log_format;
  log_level = x.log_level;
  auto_start = x.auto_start;
  port = x.port;
  https = x.https;
  capture_subdomains = x.capture_subdomains;
  forward_subdomains = x.forward_subdomains;
}

unfoldable pub resolve_process_configuration :
    Directories → Option Bytes → InProcessSiteConfig → Exec ResolveError FullyResolved
resolve_process_configuration os root_dir x = do
  home ← or_error no_home_dir os.home_dir
  cfg ← or_error no_cfg_dir os.cfg_dir
  root ← resolve_root_dir os home cfg root_dir
  ok (resolved_with (with_vars root cfg home) x)
