-- ===== src/Config/Containers.antt =====
-- src/docker.rs: a container as a target of the proxy, and the site that it is taken for. What the docker daemon
-- says of its containers is input.
use odd_box.Base.{Bytes, Bool, List, [], ◌∷◌, ◌++◌, ℕ, Option, none, some}
use odd_box.Config.Sites.{Hint, RemoteSiteConfig}
use odd_box.Http1.Message.{codes}

pub record ContainerProxyTarget : Type 0 where
  pub container_name : Bytes
  pub image_name : Bytes
  pub host_name_label : Option Bytes
  pub running : Bool
  pub target_addr : Bytes
  pub tls : Bool
  pub hints : List Hint
  pub port : ℕ
  pub capture_subdomains : Option Bool
  pub terminate_tls : Option Bool
  pub terminate_http : Option Bool
  pub forward_subdomains : Option Bool
  pub enable_lets_encrypt : Option Bool
  pub keep_original_host_header : Option Bool
  pub redirect_to_https : Option Bool

abbrev label_or : Option Bytes → Bytes → Bytes
label_or (some label) name = label
label_or none name = name ++ codes ".odd-box.localhost"

unfoldable pub generate_host_name : ContainerProxyTarget → Bytes
generate_host_name x = label_or x.host_name_label x.container_name

abbrev hints_or_none : List Hint → Option (List Hint)
hints_or_none [] = none
hints_or_none (h ∷ hs) = some (h ∷ hs)

unfoldable pub generate_remote_config : ContainerProxyTarget → RemoteSiteConfig
unfolding generate_host_name
generate_remote_config x = record {
  host_name = generate_host_name x;
  backends =
      record {
        address = x.target_addr;
        port = x.port;
        https = some x.tls;
        hints = hints_or_none x.hints;
      }
      ∷ [];
  capture_subdomains = x.capture_subdomains;
  terminate_tls = x.terminate_tls;
  terminate_http = x.terminate_http;
  forward_subdomains = x.forward_subdomains;
  enable_lets_encrypt = x.enable_lets_encrypt;
  keep_original_host_header = x.keep_original_host_header;
  redirect_to_https = x.redirect_to_https;
}
