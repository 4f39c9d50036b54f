-- ===== src/Routing/Target.antt =====
-- The target of a connection: `ReverseTcpProxyTarget`, `PeekResult` and the errors of src/tcp_proxy/tcp.rs.
use odd_box.Base.{ℕ, List, Bool, Bytes, Option}
use odd_box.Config.Sites.{Backend, InProcessSiteConfig, RemoteSiteConfig}

pub record ReverseTcpProxyTarget : Type 0 where
  pub remote_target_config : Option RemoteSiteConfig
  pub hosted_target_config : Option InProcessSiteConfig
  pub backends : List Backend
  pub host_name : Bytes
  pub is_hosted : Bool
  pub capture_subdomains : Bool
  pub forward_wildcard : Bool
  pub sub_domain : Option Bytes
  pub terminate_tls : Bool
  pub proc_id : Option ℕ

pub data DataType : Type 0 where
  tls clear_text : DataType

-- `hyper::Version`
pub data Version : Type 0 where
  http_09 http_10 http_11 http_2 http_3 : Version

pub record PeekResult : Type 0 where
  pub typ : DataType
  pub http_version : Option Version
  pub target_host : Option Bytes
  pub is_h2c_upgrade : Bool
  pub sni : Option Bytes
  pub host_header : Option Bytes

pub data PeekError : Type 0 where
  stream_is_closed unknown h2_prior_knowledge_needs_to_be_terminated : PeekError
