-- ===== src/Routing/Dispatch/Enforcement.antt =====
-- A site that asks for HTTP to be terminated is served by the terminating proxy.
use odd_box.Base.{
  ◌&&◌, ◌||◌, [], ok, none, some, true, false, not, inr, refl, ◌≡◌, Bool, Option, Bytes,
  if◌then◌else◌,
}
use odd_box.Config.Sites.{or_false, InProcessSiteConfig, RemoteSiteConfig}
use odd_box.Routing.Finding.{TargetCache, try_find_site}
use odd_box.Routing.Target.{Version, PeekResult, ReverseTcpProxyTarget}
use odd_box.Routing.Dispatch.{
  unless_enforced, http_termination_enforced, use_fallback_mode, serve_accepted, served, dropped,
  gate_hosted, gate_remote, gate_by, go_to, handle_found, handle_name, handle_new_tcp_stream,
  name_of, is_own_name, is_tls_data, FallbackReason, Surroundings,
}
use odd_box.Routing.Dispatch.Permission.{enforces, site_enforces}

unless_enforced-some :
    (a b c : Bool) (rest : Option FallbackReason)
    → (a || (b || c)) ≡ true
    → unless_enforced a b c rest ≡ some http_termination_enforced
unless_enforced-some true b c rest h = refl
unless_enforced-some false true c rest h = refl
unless_enforced-some false false true rest h = refl
unless_enforced-some false false false rest h = absurd (cc)

gate_hosted-enforced :
    (cfg : InProcessSiteConfig) (is_tls is_h2c_upgrade : Bool) (version : Option Version)
    → enforces is_tls cfg.redirect_to_https cfg.terminate_http cfg.enable_lets_encrypt ≡ true
    → gate_hosted cfg is_tls version is_h2c_upgrade ≡ some http_termination_enforced
unfolding gate_hosted
gate_hosted-enforced cfg is_tls is_h2c_upgrade version e =
    unless_enforced-some (not is_tls && or_false cfg.redirect_to_https)
      (or_false cfg.terminate_http) (or_false cfg.enable_lets_encrypt) _ e

gate_remote-enforced :
    (cfg : RemoteSiteConfig) (is_tls is_h2c_upgrade : Bool) (version : Option Version)
    → enforces is_tls cfg.redirect_to_https cfg.terminate_http cfg.enable_lets_encrypt ≡ true
    → gate_remote cfg is_tls version is_h2c_upgrade ≡ some http_termination_enforced
unfolding gate_remote
gate_remote-enforced cfg is_tls is_h2c_upgrade version e =
    unless_enforced-some (not is_tls && or_false cfg.redirect_to_https)
      (or_false cfg.terminate_http) (or_false cfg.enable_lets_encrypt) _ e

gate_by-enforced :
    (is_hosted is_tls is_h2c_upgrade : Bool) (hosted : Option InProcessSiteConfig)
    (remote : Option RemoteSiteConfig) (version : Option Version)
    → site_enforces is_hosted hosted remote is_tls ≡ true
    → gate_by is_hosted hosted remote is_tls version is_h2c_upgrade ≡ some http_termination_enforced
gate_by-enforced true is_tls u (some cfg) remote version e =
    gate_hosted-enforced cfg is_tls u version e
gate_by-enforced true is_tls u none remote version e = absurd (cc)
gate_by-enforced false is_tls u hosted (some cfg) version e =
    gate_remote-enforced cfg is_tls u version e
gate_by-enforced false is_tls u hosted none version e = absurd (cc)

serve_accepted_lem :
    (is_https_listener accepts : Bool)
    → serve_accepted is_https_listener accepts false
      ≡ (if is_https_listener then (if accepts then served true else dropped) else served false)
serve_accepted_lem true accepts = refl
serve_accepted_lem false accepts = refl

-- A connection to a site whose settings enforce it, found under the connection's name, which is not one of the
-- proxy's own, is handed to the terminating proxy whatever was peeked of its version and its upgrade: as it is on the
-- HTTP listener, after the handshake on the HTTPS listener, where it is dropped if the handshake fails. No process is
-- asked to start.
pub handle_new_tcp_stream-enforced :
    (s : Surroundings) (to_uppercase : Bytes → Bytes) (peeked : PeekResult) (requested : Bytes)
    (cache : TargetCache) (target : ReverseTcpProxyTarget)
    → is_own_name s.config peeked.target_host ≡ false
    → name_of s to_uppercase peeked ≡ some requested
    → try_find_site to_uppercase s.has_thread s.config s.containers s.cache requested
      ≡ ok (cache, some target)
    → site_enforces target.is_hosted target.hosted_target_config target.remote_target_config
        (is_tls_data s peeked.typ)
      ≡ true
    → handle_new_tcp_stream s to_uppercase (inr peeked)
      ≡ ok (record {
        cache = cache;
        sent = [];
        ending =
            if s.is_https_listener
            then (if s.accepts then served true else dropped)
            else served false;
      })
unfolding handle_new_tcp_stream handle_name handle_found go_to use_fallback_mode
handle_new_tcp_stream-enforced s to_uppercase peeked requested cache target other named found
      enforced =
    rw (
      other,
      named,
      handle_name,
      found,
      gate_by-enforced target.is_hosted (is_tls_data s peeked.typ) peeked.is_h2c_upgrade
          target.hosted_target_config target.remote_target_config peeked.http_version enforced,
      serve_accepted_lem s.is_https_listener s.accepts,
    )
