-- ===== src/Routing/Dispatch.antt =====
-- `handle_new_tcp_stream` and `use_fallback_mode` of src/proxy.rs: what becomes of a connection that was peeked at. The
-- HTTPS listener hands over a TLS configuration and the administration API, the HTTP listener neither. What the
-- handshakes come to, and what the rest of the proxy's state holds, are parameters.
pub mod Permission
pub mod Enforcement
use odd_box.Base.{
  ◌>>=◌, ◌&&◌, ◌||◌, ◌∷◌, ◌++◌, [], ok, err, panic, stalled, none, some, true, false, not,
  if◌then◌else◌, bytes_eq, inl, inr, ◌⊎◌, Exec, Bool, Option, Bytes, List, ℕ,
}
use odd_box.Config.Backends.{AccessCounts}
use odd_box.Config.Sites.{
  h2, h2c, h2cpk, hint_eq, any, all, or_false, or_empty, Backend, Hint, InProcessSiteConfig,
  RemoteSiteConfig, OddBoxConfig,
}
use odd_box.Http1.Message.{codes, or_else}
use odd_box.Process.Messages.{ProcState, ProcMessage, start}
use odd_box.Routing.Finding.{Containers, TargetCache, try_find_site}
use odd_box.Routing.Target.{
  http_2, tls, clear_text, DataType, Version, PeekError, PeekResult, ReverseTcpProxyTarget,
}
use odd_box.Routing.Target
use odd_box.Routing.Tunnel.{tunnel, no_usable_backend_found, Handshake, Tunnel, TunnelError}
use odd_box.Routing.Tunnel

-- The texts of the reasons are left out.
pub data FallbackReason : Type 0 where
  http_termination_enforced incoming_http2_but_target_does_not_support_it h2c_prior_knowledge
        unknown_reason no_backend_found no_target_found :
      FallbackReason

-- What becomes of a connection: it goes to the administration API, to the terminating proxy (as HTTPS or not), into a
-- tunnel, or it is dropped.
pub data Ending : Type 0 where
  administered : Ending
  served : Bool → Ending
  tunnelled : Tunnel → Ending
  dropped : Ending

-- `use_fallback_mode`: on the HTTPS listener a stream that is not terminated yet is accepted first.
abbrev pub serve_accepted : Bool → Bool → Bool → Ending
serve_accepted false accepts terminated = served false
serve_accepted true accepts true = served true
serve_accepted true accepts false = if accepts then served true else dropped

unfoldable pub use_fallback_mode : Bool → Bool → Bool → FallbackReason → Ending
use_fallback_mode is_https_listener accepts terminated unknown_reason = dropped
use_fallback_mode is_https_listener accepts terminated _ =
    serve_accepted is_https_listener accepts terminated

-- Whether the hints let HTTP/2, or the upgrade to it, into a tunnel; the reason if they do not.
abbrev pub gate_version :
    List Hint → FallbackReason → Bool → Bool → Option Version → Option FallbackReason
gate_version hints reason is_tls is_h2c_upgrade (some http_2) =
    if any (λ h. hint_eq h h2 || (not is_tls && not is_h2c_upgrade && hint_eq h h2cpk)) hints
    then none
    else some reason
gate_version hints reason is_tls is_h2c_upgrade _ =
    if is_h2c_upgrade
    then (if any (λ h. hint_eq h h2c) hints then none else some no_backend_found)
    else none

-- The early returns that two kinds of site have in common: clear text is to be redirected to HTTPS, HTTP is to be
-- terminated, and certificates come from Let's Encrypt.
abbrev pub unless_enforced : Bool → Bool → Bool → Option FallbackReason → Option FallbackReason
unless_enforced true terminate_http lets_encrypt rest = some http_termination_enforced
unless_enforced false true lets_encrypt rest = some http_termination_enforced
unless_enforced false false true rest = some http_termination_enforced
unless_enforced false false false rest = rest

-- The early returns for a hosted process, in their order.
unfoldable pub gate_hosted :
    InProcessSiteConfig → Bool → Option Version → Bool → Option FallbackReason
gate_hosted cfg is_tls version is_h2c_upgrade =
    unless_enforced (not is_tls && or_false cfg.redirect_to_https) (or_false cfg.terminate_http)
      (or_false cfg.enable_lets_encrypt)
      (gate_version (or_empty cfg.hints) incoming_http2_but_target_does_not_support_it is_tls
        is_h2c_upgrade version)

unfoldable pub is_local : Backend → Bool
is_local b = bytes_eq b.address (codes "127.0.0.1") || bytes_eq b.address (codes "localhost")

unfoldable pub hints_of : List Backend → List Hint
hints_of [] = []
hints_of (b ∷ bs) = or_empty b.hints ++ hints_of bs

-- The early returns for a remote site: unless the host header is to be kept, every backend has to be local.
unfoldable pub gate_remote : RemoteSiteConfig → Bool → Option Version → Bool → Option FallbackReason
gate_remote cfg is_tls version is_h2c_upgrade =
    unless_enforced (not is_tls && or_false cfg.redirect_to_https) (or_false cfg.terminate_http)
      (or_false cfg.enable_lets_encrypt)
      (if not (or_false cfg.keep_original_host_header) && not (all is_local cfg.backends)
        then some http_termination_enforced
        else gate_version (hints_of cfg.backends) no_backend_found is_tls is_h2c_upgrade version)

abbrev pub gate_by :
    Bool
    → Option InProcessSiteConfig
    → Option RemoteSiteConfig
    → Bool
    → Option Version
    → Bool
    → Option FallbackReason
gate_by true (some cfg) remote is_tls version is_h2c_upgrade =
    gate_hosted cfg is_tls version is_h2c_upgrade
gate_by true none remote is_tls version is_h2c_upgrade = none
gate_by false hosted (some cfg) is_tls version is_h2c_upgrade =
    gate_remote cfg is_tls version is_h2c_upgrade
gate_by false hosted none is_tls version is_h2c_upgrade = none

abbrev pub gate : ReverseTcpProxyTarget → Bool → Option Version → Bool → Option FallbackReason
gate target = gate_by target.is_hosted target.hosted_target_config target.remote_target_config

-- A hosted process that is stopped is asked to start.
abbrev pub start_if_stopped : Bytes → Option ProcState → List ProcMessage
start_if_stopped host_name (some ProcState.stopped) = start host_name ∷ []
start_if_stopped host_name _ = []

abbrev pub start_messages :
    Bool → ReverseTcpProxyTarget → (Bytes → Option ProcState) → List ProcMessage
start_messages true target status = start_if_stopped target.host_name (status target.host_name)
start_messages false target status = []

-- What the connection meets: the configuration and the state of the proxy, and how the handshakes end.
pub record Surroundings : Type 0 where
  pub is_https_listener : Bool
  pub config : OddBoxConfig
  pub containers : Containers
  pub cache : TargetCache
  pub has_thread : ℕ → Bool
  pub status : Bytes → Option ProcState
  pub counts : AccessCounts
  pub handshake : Handshake
  pub accepts : Bool

-- What is left behind: the cache, the messages to the hosts of processes, and the ending.
pub record Handled : Type 0 where
  pub cache : TargetCache
  pub sent : List ProcMessage
  pub ending : Ending

unfoldable pub is_own_name : OddBoxConfig → Option Bytes → Bool
is_own_name config none = false
is_own_name config (some host) =
    bytes_eq host (codes "oddbox.localhost")
    || bytes_eq host (codes "odd-box.localhost")
    || bytes_eq host (codes "localhost")
    || bytes_eq host (or_else config.odd_box_url (codes "!"))

module _ (s : Surroundings) where
  abbrev pub is_tls_data : DataType → Bool
  is_tls_data tls = true
  is_tls_data clear_text = false

  -- How the attempt to tunnel ends.
  abbrev pub end_tunnel : Exec TunnelError (Option Tunnel) → Exec (Unit {0}) Ending
  end_tunnel (ok none) = ok dropped
  end_tunnel (ok (some t)) = ok (tunnelled t)
  end_tunnel (err (no_usable_backend_found terminated)) =
      ok (use_fallback_mode s.is_https_listener s.accepts terminated no_backend_found)
  end_tunnel (err TunnelError.unknown) = ok dropped
  end_tunnel panic = panic
  end_tunnel stalled = stalled

  unfoldable pub go_to :
      ReverseTcpProxyTarget
      → Bool
      → Option Version
      → Bool
      → Option FallbackReason
      → Exec (Unit {0}) (List ProcMessage × Ending)
  go_to target is_tls version is_h2c_upgrade (some reason) =
      ok ([], use_fallback_mode s.is_https_listener s.accepts false reason)
  go_to target is_tls version is_h2c_upgrade none =
      end_tunnel (
        tunnel (or_false s.config.use_loopback_ip_for_procs) s.counts target is_tls version
          is_h2c_upgrade s.is_https_listener s.handshake)
      >>= λ e. ok (start_messages target.is_hosted target s.status, e)

  unfoldable pub handle_found :
      TargetCache → PeekResult → Option ReverseTcpProxyTarget → Exec (Unit {0}) Handled
  handle_found cache peeked none = ok (record {
    cache = cache;
    sent = [];
    ending = use_fallback_mode s.is_https_listener s.accepts false no_target_found;
  })
  handle_found cache peeked (some target) =
      let is_tls = is_tls_data peeked.typ in
      go_to target is_tls peeked.http_version peeked.is_h2c_upgrade
        (gate target is_tls peeked.http_version peeked.is_h2c_upgrade)
      >>= λ r. ok (record { cache = cache; sent = r.0; ending = r.1 })

  module _ (to_uppercase : Bytes → Bytes) where
    -- Without a name the terminating proxy takes the stream as it is.
    unfoldable pub handle_name : PeekResult → Option Bytes → Exec (Unit {0}) Handled
    handle_name peeked none = ok (record { cache = s.cache; sent = []; ending = served false })
    handle_name peeked (some name) =
        try_find_site to_uppercase s.has_thread s.config s.containers s.cache name >>= λ r.
        handle_found r.0 peeked r.1

    abbrev pub name_of : PeekResult → Option Bytes
    name_of peeked = elim peeked.target_host [ none ↦ peeked.sni | some host ↦ some host ]

    abbrev pub end_at_once : Ending → Exec (Unit {0}) Handled
    end_at_once e = ok (record { cache = s.cache; sent = []; ending = e })

    unfoldable pub handle_new_tcp_stream : PeekError ⊎ PeekResult → Exec (Unit {0}) Handled
    handle_new_tcp_stream (inl PeekError.h2_prior_knowledge_needs_to_be_terminated) =
        end_at_once (use_fallback_mode s.is_https_listener s.accepts false h2c_prior_knowledge)
    handle_new_tcp_stream (inl PeekError.stream_is_closed) = end_at_once dropped
    handle_new_tcp_stream (inl PeekError.unknown) =
        end_at_once (use_fallback_mode s.is_https_listener s.accepts false unknown_reason)
    handle_new_tcp_stream (inr peeked) =
        if is_own_name s.config peeked.target_host && s.is_https_listener
        then end_at_once administered
        else handle_name peeked (name_of peeked)
