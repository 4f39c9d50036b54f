-- ===== src/Routing/Tunnel.antt =====
-- `ReverseTcpProxy::tunnel` of src/tcp_proxy/tcp.rs: whether the client's TLS is terminated, which backend takes the
-- connection, and whether a TLS session to it is set up. The handshakes and the connection to the backend are
-- input and output: the answers of the environment are parameters.
pub mod Matching
pub mod Kinds
use odd_box.Routing.Tracking.{ProxyActiveTcpConnection, raw_tunnel, tls_tunnel, OutgoingTunnelType}
use odd_box.Base.{
  [], ◌∷◌, ◌>>=◌, true, none, err, false, ok, Exec, not, some, if◌then◌else◌, Bool, Option,
}
use odd_box.Routing.Target.{
  http_10, http_11, http_2, clear_text, tls, Version, DataType, PeekResult, ReverseTcpProxyTarget,
}
use odd_box.Config.Backends.{
  h2_or_h2cpk, http1, http2, h2c_upgrade, next_hosted_backend, h2c_prior_knowledge,
  next_remote_backend, any_tls, AccessCounts, BackendFilter,
}
use odd_box.Config.Sites.{InProcessSiteConfig, any, RemoteSiteConfig, or_false, Backend}

-- Whether the client's TLS has to be terminated.
unfoldable pub terminate_incoming : Bool → ReverseTcpProxyTarget → Bool
terminate_incoming incoming_is_tls target =
    if target.terminate_tls
    then incoming_is_tls
    else if incoming_is_tls
    then not (any (λ b. or_false b.https) target.backends)
    else false

-- `erect_tls_tunnel_to_backend`
unfoldable pub erect_tls_tunnel : Bool → Bool → Bool → Bool
erect_tls_tunnel incoming_is_tls false terminated = false
erect_tls_tunnel true true true = true
erect_tls_tunnel true true false = false
erect_tls_tunnel false true terminated = true

-- A byte stream that is TLS still goes to any TLS backend.
abbrev pub unknown_version : DataType → Bool → Option BackendFilter
unknown_version tls false = some any_tls
unknown_version _ _ = none

unfoldable pub backend_filter_of : Option Version → DataType → Bool → Bool → Option BackendFilter
backend_filter_of (some http_2) clear_text false false = some h2c_prior_knowledge
backend_filter_of (some http_11) clear_text false true = some h2c_upgrade
backend_filter_of (some http_2) tls false false = some http2
backend_filter_of (some http_10) _ _ false = some http1
backend_filter_of (some http_11) _ _ false = some http1
backend_filter_of none typ terminated _ = unknown_version typ terminated
backend_filter_of (some http_2) clear_text true false = some h2_or_h2cpk
backend_filter_of _ _ _ _ = none

unfoldable pub peekresult_to_backend_filter : PeekResult → Bool → Bool → Option BackendFilter
peekresult_to_backend_filter info terminated is_h2c_upgrade =
    backend_filter_of info.http_version info.typ terminated is_h2c_upgrade

-- The target's next backend: it is remote or hosted, never both.
unfoldable pub next_backend :
    Bool
    → AccessCounts
    → BackendFilter
    → Option RemoteSiteConfig
    → Option InProcessSiteConfig
    → Option Backend
next_backend use_loopback counts f (some remote) none = next_remote_backend remote counts f
next_backend use_loopback counts f none (some hosted) =
    next_hosted_backend use_loopback hosted counts f
next_backend use_loopback counts f _ _ = none

pub data TunnelError : Type 0 where
  no_usable_backend_found : Bool → TunnelError
  unknown : TunnelError

-- A tunnel that is about to run: the backend, whether the client's TLS was terminated, and whether a TLS session to the
-- backend is set up.
pub record Tunnel : Type 0 where
  pub backend : Backend
  pub client_tls_is_terminated : Bool
  pub erect_tls : Bool

-- What the acceptor of a TLS session, and the peek into it, come to.
pub data Handshake : Type 0 where
  refused : Handshake
  peek_failed : Handshake
  accepted : PeekResult → Handshake

module _ (use_loopback : Bool) (counts : AccessCounts) (target : ReverseTcpProxyTarget) where
  -- From the filter on: `none` sends the connection back, with what was terminated of it.
  unfoldable pub tunnel_with : Bool → Bool → Option BackendFilter → Exec TunnelError Tunnel
  tunnel_with incoming_is_tls terminated none = err (no_usable_backend_found terminated)
  tunnel_with incoming_is_tls terminated (some f) =
      elim (next_backend use_loopback counts f target.remote_target_config
        target.hosted_target_config) [
          | none ↦ err (no_usable_backend_found terminated)
          | some backend ↦ ok (record {
            backend = backend;
            client_tls_is_terminated = terminated;
            erect_tls = erect_tls_tunnel incoming_is_tls (or_false backend.https) terminated;
          })
        ]

  -- The TLS session is accepted and peeked into; `none` is a connection that is dropped.
  unfoldable pub tunnel_terminated : Bool → Bool → Handshake → Exec TunnelError (Option Tunnel)
  tunnel_terminated is_h2c_upgrade has_config refused = if has_config then ok none else err unknown
  tunnel_terminated is_h2c_upgrade has_config peek_failed = err unknown
  tunnel_terminated is_h2c_upgrade has_config (accepted r) =
      if has_config
      then (tunnel_with true true (peekresult_to_backend_filter r true is_h2c_upgrade) >>= λ t.
          ok (some t))
      else err unknown

  -- `tunnel` up to the connection to the backend; `has_config` tells whether there is a TLS configuration.
  unfoldable pub tunnel :
      Bool → Option Version → Bool → Bool → Handshake → Exec TunnelError (Option Tunnel)
  tunnel incoming_is_tls http_version is_h2c_upgrade has_config handshake =
      if terminate_incoming incoming_is_tls target
      then tunnel_terminated is_h2c_upgrade has_config handshake
      else (tunnel_with incoming_is_tls false (
            backend_filter_of http_version (if incoming_is_tls then tls else clear_text) false
              is_h2c_upgrade)
          >>= λ t. ok (some t))

-- `outgoing_tunnel_type`, as `tunnel` tells the tracking.
unfoldable pub tunnel_type : ReverseTcpProxyTarget → Backend → OutgoingTunnelType
tunnel_type target backend =
    if or_false backend.https then tls_tunnel target backend else raw_tunnel target backend

-- What is told to the tracking once the backend is connected.
unfoldable pub tell_tunnel :
    Bool → ReverseTcpProxyTarget → Tunnel → ProxyActiveTcpConnection → ProxyActiveTcpConnection
tell_tunnel incoming_is_tls target t c = record c {
  incoming_connection_uses_tls = incoming_is_tls;
  outgoing_tunnel_type = some (tunnel_type target t.backend);
}
