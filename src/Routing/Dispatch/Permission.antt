-- ===== src/Routing/Dispatch/Permission.antt =====
-- A tunnel is only set up where the site's configuration lets the traffic through unread.
use odd_box.Base.{
  ◌&&◌, ◌||◌, ok, err, panic, stalled, Exec, none, some, true, false, not, if◌then◌else◌,
  Bool-cases, inl, inr, refl, ap, ◌∙◌, ◌≡◌, ◌≢◌, bind-eq-ok, ok-injective, Bool, Option, Bytes,
  List,
}
use odd_box.Config.Sites.{or_false, all, InProcessSiteConfig, RemoteSiteConfig}
use odd_box.Process.Messages.{ProcMessage}
use odd_box.Routing.Finding.{TargetCache, try_find_site}
use odd_box.Routing.Target.{Version, PeekResult, ReverseTcpProxyTarget}
use odd_box.Routing.Tunnel.{tunnel, no_usable_backend_found, Tunnel, TunnelError}
use odd_box.Routing.Tunnel.Matching.{tunnel-IsOffered, IsOffered}
use odd_box.Routing.Dispatch.{
  unless_enforced, http_termination_enforced, unknown_reason, no_target_found, no_backend_found,
  end_tunnel, Ending, administered, served, tunnelled, use_fallback_mode, serve_accepted,
  gate_hosted, gate_remote, gate_by, gate, is_local, go_to, handle_found, handle_name,
  handle_new_tcp_stream, name_of, is_own_name, is_tls_data, FallbackReason, Surroundings, Handled,
}

-- The settings by which HTTP has to be terminated.
abbrev pub enforces : Bool → Option Bool → Option Bool → Option Bool → Bool
enforces is_tls redirect terminate_http lets_encrypt =
    (not is_tls && or_false redirect) || (or_false terminate_http || or_false lets_encrypt)

-- The settings of the target's site by which HTTP has to be terminated.
abbrev pub site_enforces : Bool → Option InProcessSiteConfig → Option RemoteSiteConfig → Bool → Bool
site_enforces true (some cfg) remote is_tls =
    enforces is_tls cfg.redirect_to_https cfg.terminate_http cfg.enable_lets_encrypt
site_enforces true none remote is_tls = false
site_enforces false hosted (some cfg) is_tls =
    enforces is_tls cfg.redirect_to_https cfg.terminate_http cfg.enable_lets_encrypt
site_enforces false hosted none is_tls = false

-- The host header needs no rewriting: a remote site keeps it, or has only local backends.
abbrev pub host_may_stay : Bool → Option RemoteSiteConfig → Bool
host_may_stay true remote = true
host_may_stay false (some cfg) = or_false cfg.keep_original_host_header || all is_local cfg.backends
host_may_stay false none = true

-- No setting forces the traffic to be terminated, and the host header needs no rewriting.
pub record IsPermitted (target : ReverseTcpProxyTarget) (is_tls : Bool) : Type 0 where
  pub unenforced :
      site_enforces target.is_hosted target.hosted_target_config target.remote_target_config is_tls
      ≡ false
  pub stays : host_may_stay target.is_hosted target.remote_target_config ≡ true

unless_enforced-none :
    (a b c : Bool) (rest : Option FallbackReason)
    → unless_enforced a b c rest ≡ none
    → ((a || (b || c)) ≡ false) × (rest ≡ none)
unless_enforced-none true b c rest h = absurd (cc)
unless_enforced-none false true c rest h = absurd (cc)
unless_enforced-none false false true rest h = absurd (cc)
unless_enforced-none false false false rest h = (refl, h)

all_local_or_kept :
    (keeps local : Bool) (rest : Option FallbackReason)
    → (if not keeps && not local then some http_termination_enforced else rest) ≡ none
    → (keeps || local) ≡ true
all_local_or_kept true local rest h = refl
all_local_or_kept false true rest h = refl
all_local_or_kept false false rest h = absurd (cc)

gate_hosted-none :
    (cfg : InProcessSiteConfig) (is_tls is_h2c_upgrade : Bool) (version : Option Version)
    → gate_hosted cfg is_tls version is_h2c_upgrade ≡ none
    → enforces is_tls cfg.redirect_to_https cfg.terminate_http cfg.enable_lets_encrypt ≡ false
unfolding gate_hosted
gate_hosted-none cfg is_tls is_h2c_upgrade version e =
    (unless_enforced-none (not is_tls && or_false cfg.redirect_to_https)
      (or_false cfg.terminate_http) (or_false cfg.enable_lets_encrypt) _ e).0

gate_remote-none :
    (cfg : RemoteSiteConfig) (is_tls is_h2c_upgrade : Bool) (version : Option Version)
    → gate_remote cfg is_tls version is_h2c_upgrade ≡ none
    → (enforces is_tls cfg.redirect_to_https cfg.terminate_http cfg.enable_lets_encrypt ≡ false)
      × ((or_false cfg.keep_original_host_header || all is_local cfg.backends) ≡ true)
unfolding gate_remote
gate_remote-none cfg is_tls is_h2c_upgrade version e =
    let (unenforced, rest) =
      unless_enforced-none (not is_tls && or_false cfg.redirect_to_https)
        (or_false cfg.terminate_http) (or_false cfg.enable_lets_encrypt) _ e in
    (
      unenforced,
      all_local_or_kept (or_false cfg.keep_original_host_header) (all is_local cfg.backends) _ rest,
    )

module _ (is_tls is_h2c_upgrade : Bool) (version : Option Version) where
  gate_by-none :
      (is_hosted : Bool) (hosted : Option InProcessSiteConfig) (remote : Option RemoteSiteConfig)
      → gate_by is_hosted hosted remote is_tls version is_h2c_upgrade ≡ none
      → (site_enforces is_hosted hosted remote is_tls ≡ false)
        × (host_may_stay is_hosted remote ≡ true)
  gate_by-none true (some cfg) remote e =
      (gate_hosted-none cfg is_tls is_h2c_upgrade version e, refl)
  gate_by-none true none remote e = (refl, refl)
  gate_by-none false hosted (some cfg) e = gate_remote-none cfg is_tls is_h2c_upgrade version e
  gate_by-none false hosted none e = (refl, refl)

  gate-IsPermitted :
      (target : ReverseTcpProxyTarget)
      → gate target is_tls version is_h2c_upgrade ≡ none
      → IsPermitted target is_tls
  gate-IsPermitted target e =
      let (unenforced, stays) =
        gate_by-none target.is_hosted target.hosted_target_config target.remote_target_config e in
      record { unenforced = unenforced; stays = stays }

-- The fallback never tunnels.
serve_accepted-ne-tunnelled :
    (is_https_listener accepts terminated : Bool) (t : Tunnel)
    → serve_accepted is_https_listener accepts terminated ≢ tunnelled t
serve_accepted-ne-tunnelled false accepts terminated t e = cc
serve_accepted-ne-tunnelled true accepts true t e = cc
serve_accepted-ne-tunnelled true true false t e = cc
serve_accepted-ne-tunnelled true false false t e = cc

use_fallback_mode-ne-tunnelled :
    (is_https_listener accepts terminated : Bool) (reason : FallbackReason) (t : Tunnel)
    → use_fallback_mode is_https_listener accepts terminated reason ≢ tunnelled t
unfolding use_fallback_mode
use_fallback_mode-ne-tunnelled a b c unknown_reason t e = cc
use_fallback_mode-ne-tunnelled a b c _ t e = serve_accepted-ne-tunnelled a b c t e

-- The tunnel of an ending.
abbrev tunnel_of : Tunnel → Ending → Tunnel
tunnel_of t (tunnelled u) = u
tunnel_of t _ = t

module _ (s : Surroundings) where
  end_tunnel-tunnelled :
      (r : Exec TunnelError (Option Tunnel)) (t : Tunnel)
      → end_tunnel s r ≡ ok (tunnelled t)
      → r ≡ ok (some t)
  end_tunnel-tunnelled (ok none) t e = absurd (cc)
  end_tunnel-tunnelled (ok (some u)) t e = ap (λ x. ok (some (tunnel_of t x))) (ok-injective e)
  end_tunnel-tunnelled (err (no_usable_backend_found terminated)) t e = absurd (
      use_fallback_mode-ne-tunnelled s.is_https_listener s.accepts terminated no_backend_found t
        (ok-injective e))
  end_tunnel-tunnelled (err TunnelError.unknown) t e = absurd (cc)
  end_tunnel-tunnelled panic t e = absurd (cc)
  end_tunnel-tunnelled stalled t e = absurd (cc)

  -- The attempt to tunnel to the target.
  abbrev pub attempt :
      ReverseTcpProxyTarget → Bool → Option Version → Bool → Exec TunnelError (Option Tunnel)
  attempt target is_tls version is_h2c_upgrade =
      tunnel (or_false s.config.use_loopback_ip_for_procs) s.counts target is_tls version
        is_h2c_upgrade s.is_https_listener s.handshake

  -- The tunnel is the one that the target is given, to a backend that the target offers.
  pub record LeadsTo (target : ReverseTcpProxyTarget) (peeked : PeekResult) (t : Tunnel)
      : Type 0 where
    pub attempted :
        attempt target (is_tls_data s peeked.typ) peeked.http_version peeked.is_h2c_upgrade
        ≡ ok (some t)
    pub offered :
        IsOffered
          (or_false s.config.use_loopback_ip_for_procs)
          target.remote_target_config
          target.hosted_target_config
          t.backend

  go_to-gate :
      (target : ReverseTcpProxyTarget) (is_tls is_h2c_upgrade : Bool) (version : Option Version)
      (g : Option FallbackReason) (sent : List ProcMessage) (t : Tunnel)
      → go_to s target is_tls version is_h2c_upgrade g ≡ ok (sent, tunnelled t)
      → (g ≡ none) × (attempt target is_tls version is_h2c_upgrade ≡ ok (some t))
  unfolding go_to
  go_to-gate target is_tls is_h2c_upgrade version none sent t e =
      let (ending, ended, k) =
        bind-eq-ok (end_tunnel s (attempt target is_tls version is_h2c_upgrade)) _ e in
      (refl, end_tunnel-tunnelled _ t (ended ∙ ap (λ p. ok p.1) (ok-injective k)))
  go_to-gate target is_tls is_h2c_upgrade version (some reason) sent t e = absurd (
      use_fallback_mode-ne-tunnelled s.is_https_listener s.accepts false reason t
        (ap (λ p. p.1) (ok-injective e)))

  handle_found-IsPermitted :
      (cache : TargetCache) (peeked : PeekResult) (found : Option ReverseTcpProxyTarget)
      (h : Handled) (t : Tunnel)
      → handle_found s cache peeked found ≡ ok h
      → h.ending ≡ tunnelled t
      → (target : ReverseTcpProxyTarget) × (found ≡ some target)
        × (cache ≡ h.cache)
        × IsPermitted target (is_tls_data s peeked.typ)
        × LeadsTo target peeked t
  unfolding handle_found
  handle_found-IsPermitted cache peeked none h t e ends = absurd (
      use_fallback_mode-ne-tunnelled s.is_https_listener s.accepts false no_target_found t
        (ap (λ (x : Handled). x.ending) (ok-injective e) ∙ ends))
  handle_found-IsPermitted cache peeked (some target) h t e ends =
      let is_tls = is_tls_data s peeked.typ in
      let (r, went, made) =
        bind-eq-ok
          (go_to s target is_tls peeked.http_version peeked.is_h2c_upgrade
            (gate target is_tls peeked.http_version peeked.is_h2c_upgrade))
          _ e in
      let end : r.1 ≡ tunnelled t = ap (λ (x : Handled). x.ending) (ok-injective made) ∙ ends in
      let (open_gate, attempted) =
        go_to-gate target is_tls peeked.is_h2c_upgrade peeked.http_version _ r.0 t
          (went ∙ ap (λ x. ok (r.0, x)) end) in
      (
        target,
        refl,
        ap (λ (x : Handled). x.cache) (ok-injective made),
        gate-IsPermitted is_tls peeked.is_h2c_upgrade peeked.http_version target open_gate,
        record {
          attempted = attempted;
          offered =
              tunnel-IsOffered (or_false s.config.use_loopback_ip_for_procs) s.counts target is_tls
                peeked.http_version peeked.is_h2c_upgrade s.is_https_listener s.handshake t
                attempted;
        },
      )

  module _ (to_uppercase : Bytes → Bytes) where
    handle_name-IsPermitted :
        (peeked : PeekResult) (name : Option Bytes) (h : Handled) (t : Tunnel)
        → handle_name s to_uppercase peeked name ≡ ok h
        → h.ending ≡ tunnelled t
        → (requested : Bytes) × (target : ReverseTcpProxyTarget) × (name ≡ some requested)
          × (try_find_site to_uppercase s.has_thread s.config s.containers s.cache requested
              ≡ ok (h.cache, some target))
          × IsPermitted target (is_tls_data s peeked.typ)
          × LeadsTo target peeked t
    unfolding handle_name
    handle_name-IsPermitted peeked none h t e ends =
        let never : served false ≡ tunnelled t =
          ap (λ (x : Handled). x.ending) (ok-injective e) ∙ ends in
        absurd (cc)
    handle_name-IsPermitted peeked (some requested) h t e ends =
        let (r, found, handled) =
          bind-eq-ok
            (try_find_site to_uppercase s.has_thread s.config s.containers s.cache requested) _ e in
        let (target, is_it, same_cache, permitted, leads) =
          handle_found-IsPermitted r.0 peeked r.1 h t handled ends in
        (requested, target, refl, found ∙ (λ i. ok (same_cache i, is_it i)), permitted, leads)

-- A connection that was peeked at and ends in a tunnel goes to a site that was found under its name (the host that was
-- peeked, or else the server name): the tunnel is the one that is set up for that site, to a backend that it offers,
-- one of a remote site's or the hosted process itself at the local address and on its port. And the site permits it: no
-- redirection of clear text to HTTPS, no termination of HTTP and no certificates by Let's Encrypt are configured for
-- it, and a remote site that does not keep the host header has only local backends.
pub handle_new_tcp_stream-IsPermitted :
    (s : Surroundings) (to_uppercase : Bytes → Bytes) (peeked : PeekResult) (h : Handled)
    (t : Tunnel)
    → handle_new_tcp_stream s to_uppercase (inr peeked) ≡ ok h
    → h.ending ≡ tunnelled t
    → (requested : Bytes) × (target : ReverseTcpProxyTarget) × (name_of s to_uppercase peeked
        ≡ some requested)
      × (try_find_site to_uppercase s.has_thread s.config s.containers s.cache requested
          ≡ ok (h.cache, some target))
      × IsPermitted target (is_tls_data s peeked.typ)
      × LeadsTo s target peeked t
unfolding handle_new_tcp_stream
handle_new_tcp_stream-IsPermitted s to_uppercase peeked h t e ends =
    elim (Bool-cases (is_own_name s.config peeked.target_host && s.is_https_listener)) [
      | inl own ↦
          let never : administered ≡ tunnelled t =
            ap (λ (x : Handled). x.ending) (ok-injective (rw own at e)) ∙ ends in
          absurd (cc)
      | inr other ↦
          handle_name-IsPermitted s to_uppercase peeked (name_of s to_uppercase peeked) h t
            (rw other at e) ends
    ]
