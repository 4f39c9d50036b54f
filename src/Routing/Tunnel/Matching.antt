-- ===== src/Routing/Tunnel/Matching.antt =====
-- A tunnel carries what its backend speaks.
use odd_box.Routing.Tunnel.{
  refused, peek_failed, accepted, terminate_incoming, tunnel_terminated, backend_filter_of, tunnel,
  Handshake, no_usable_backend_found, TunnelError, erect_tls_tunnel, tunnel_with, Tunnel,
  next_backend,
}
use odd_box.Base.{
  arith, Bool-cases, ap, bind-eq-ok, ◌⊎◌, ◌>>=◌, if◌then◌else◌, refl, ok-injective, subst, ◌∙◌, sym,
  none, some, true, false, ok, err, inr, inl, Exec, not, ℕ, Option, ◌&&◌, ◌≡◌, List, ◌||◌, Bool, [],
  ◌∷◌,
}
use odd_box.Config.Backends.{
  any_tls, access_count, usable, filter_backend, next_hosted_backend, AccessCounts, BackendFilter,
  next_remote_backend, take_turn, hosted_port,
}
use odd_box.Routing.Target.{clear_text, tls, Version, ReverseTcpProxyTarget}
use odd_box.Config.Backends.Rotation.{usable-IsUsable, take_turn_lem, Among, here, there}
use odd_box.Http1.Message.{codes}
use mathlib.Core.Option.{some-injective}
use odd_box.Config.Sites.{or_false, InProcessSiteConfig, RemoteSiteConfig, Backend}

chosen-passes :
    (f : BackendFilter) (bs : List Backend) (count : ℕ) (b : Backend)
    → take_turn count (usable f bs) ≡ some b
    → filter_backend f b ≡ true
unfolding take_turn
chosen-passes f bs count b e = elim (take_turn_lem count (usable f bs)) [
  | inl none_left ↦ let x = rw (none_left, take_turn) at e in absurd cc
  | inr (c, found, m) ↦
      let same : c ≡ b = some-injective c b (sym found ∙ e) in
      subst (λ x. filter_backend f x ≡ true) same (usable-IsUsable f bs m).passes
]

next_backend-passes :
    (use_loopback : Bool) (counts : AccessCounts) (f : BackendFilter)
    (remote : Option RemoteSiteConfig) (hosted : Option InProcessSiteConfig) (b : Backend)
    → next_backend use_loopback counts f remote hosted ≡ some b
    → filter_backend f b ≡ true
unfolding next_backend next_remote_backend next_hosted_backend
next_backend-passes u counts f none none b e = absurd cc
next_backend-passes u counts f (some r) (some h) b e = absurd cc
next_backend-passes u counts f (some r) none b e =
    chosen-passes f r.backends (access_count r.host_name counts) b e
next_backend-passes u counts f none (some h) b e =
    chosen-passes f _ (access_count h.host_name counts) b e

-- Whether the bytes that a backend is sent are TLS.
unfoldable pub sends_tls : Bool → Tunnel → Bool
sends_tls incoming_is_tls t = t.erect_tls || (incoming_is_tls && not t.client_tls_is_terminated)

erect_terminated : (https : Bool) → (erect_tls_tunnel true https true || (true && not true)) ≡ https
unfolding erect_tls_tunnel
erect_terminated true = refl
erect_terminated false = refl

erect_carried :
    (incoming_is_tls : Bool) (version : Option Version) (is_h2c_upgrade : Bool)
    → (incoming_is_tls ≡ true → version ≡ none)
    → (f : BackendFilter)
    → backend_filter_of version (if incoming_is_tls then tls else clear_text) false is_h2c_upgrade
      ≡ some f
    → (b : Backend) → filter_backend f b ≡ true
    → (erect_tls_tunnel incoming_is_tls (or_false b.https) false || (incoming_is_tls && not false))
      ≡ or_false b.https
unfolding erect_tls_tunnel backend_filter_of filter_backend
erect_carried true (some v) is_h2c_upgrade plain f told b passes = let e = plain refl in absurd cc
erect_carried true none is_h2c_upgrade plain f told b passes =
    let any : any_tls ≡ f = some-injective any_tls f told in
    as_is (or_false b.https) (subst (λ g. filter_backend g b ≡ true) (sym any) passes)
  where
    as_is :
        (https : Bool)
        → https ≡ true
        → (erect_tls_tunnel true https false || (true && not false)) ≡ https
    as_is true e = refl
    as_is false e = absurd cc
erect_carried false version is_h2c_upgrade plain f told b passes = clear (or_false b.https)
  where
    clear : (https : Bool) → (erect_tls_tunnel false https false || (false && not false)) ≡ https
    clear true = refl
    clear false = refl

-- The backend is one of the remote site's, or the hosted process itself, on its port and at the local address.
abbrev pub IsOffered :
    Bool → Option RemoteSiteConfig → Option InProcessSiteConfig → Backend → Type 0
IsOffered use_loopback (some remote) none b = Among b remote.backends
IsOffered use_loopback none (some hosted) b = b ≡ record {
  address = if use_loopback then codes "127.0.0.1" else codes "localhost";
  port = hosted_port hosted;
  https = hosted.https;
  hints = hosted.hints;
}
IsOffered use_loopback _ _ b = ⊥

chosen-Among :
    (f : BackendFilter) (bs : List Backend) (count : ℕ) (b : Backend)
    → take_turn count (usable f bs) ≡ some b
    → Among b bs
unfolding take_turn
chosen-Among f bs count b e = elim (take_turn_lem count (usable f bs)) [
  | inl none_left ↦ let x = rw (none_left, take_turn) at e in absurd cc
  | inr (c, found, m) ↦
      let same : c ≡ b = some-injective c b (sym found ∙ e) in
      subst (λ x. Among x bs) same (usable-IsUsable f bs m).among
]

only_one : {a b : Backend} → Among b (a ∷ []) → b ≡ a
only_one here = refl
only_one (there m) = elim m [ ]

next_backend-IsOffered :
    (use_loopback : Bool) (counts : AccessCounts) (f : BackendFilter)
    (remote : Option RemoteSiteConfig) (hosted : Option InProcessSiteConfig) (b : Backend)
    → next_backend use_loopback counts f remote hosted ≡ some b
    → IsOffered use_loopback remote hosted b
unfolding next_backend next_remote_backend next_hosted_backend
next_backend-IsOffered u counts f none none b e = absurd cc
next_backend-IsOffered u counts f (some r) (some h) b e = absurd cc
next_backend-IsOffered u counts f (some r) none b e =
    chosen-Among f r.backends (access_count r.host_name counts) b e
next_backend-IsOffered u counts f none (some h) b e =
    only_one (chosen-Among f _ (access_count h.host_name counts) b e)

module _ (use_loopback : Bool) (counts : AccessCounts) (target : ReverseTcpProxyTarget) where
  -- What is known of a tunnel that is set up.
  record IsMatched (incoming_is_tls terminated : Bool) (f : BackendFilter) (t : Tunnel)
      : Type 0 where
    passes : filter_backend f t.backend ≡ true
    as_told : t.client_tls_is_terminated ≡ terminated
    erected : t.erect_tls ≡ erect_tls_tunnel incoming_is_tls (or_false t.backend.https) terminated
    offered :
        IsOffered use_loopback target.remote_target_config target.hosted_target_config t.backend

  tunnel_with-IsMatched :
      (incoming_is_tls terminated : Bool) (f : BackendFilter) (t : Tunnel)
      → tunnel_with use_loopback counts target incoming_is_tls terminated (some f) ≡ ok t
      → IsMatched incoming_is_tls terminated f t
  unfolding tunnel_with
  tunnel_with-IsMatched incoming_is_tls terminated f t e = by_choice _ refl e
    where
      by_choice :
          (chosen : Option Backend)
          → next_backend use_loopback counts f target.remote_target_config
              target.hosted_target_config
            ≡ chosen
          → ◌≡◌ {A = Exec TunnelError Tunnel}
              (elim chosen [
                | none ↦ err (no_usable_backend_found terminated)
                | some backend ↦ ok (record {
                  backend = backend;
                  client_tls_is_terminated = terminated;
                  erect_tls = erect_tls_tunnel incoming_is_tls (or_false backend.https) terminated;
                })
              ])
              (ok t)
          → IsMatched incoming_is_tls terminated f t
      by_choice none e h = absurd cc
      by_choice (some b) e h =
          subst (IsMatched incoming_is_tls terminated f) (ok-injective h) (record {
            passes =
                next_backend-passes use_loopback counts f target.remote_target_config
                  target.hosted_target_config b e;
            as_told = refl;
            erected = refl;
            offered =
                next_backend-IsOffered use_loopback counts f target.remote_target_config
                  target.hosted_target_config b e;
          })

  filtered-IsMatched :
      (incoming_is_tls terminated : Bool) (filter : Option BackendFilter) (t : Tunnel)
      → (tunnel_with use_loopback counts target incoming_is_tls terminated filter >>= λ u.
          ok (some u))
        ≡ ok (some t)
      → (f : BackendFilter) × (filter ≡ some f) × IsMatched incoming_is_tls terminated f t
  unfolding tunnel_with
  filtered-IsMatched incoming_is_tls terminated none t e = absurd cc
  filtered-IsMatched incoming_is_tls terminated (some f) t e =
      let (u, made, same) =
        bind-eq-ok (tunnel_with use_loopback counts target incoming_is_tls terminated (some f))
          (λ u. ok (some u)) {result = some t} e in
      (
        f,
        refl,
        tunnel_with-IsMatched incoming_is_tls terminated f t
            (made ∙ ap ok (some-injective u t (ok-injective same))),
      )

  terminate_incoming-incoming :
      (incoming_is_tls : Bool)
      → terminate_incoming incoming_is_tls target ≡ true
      → incoming_is_tls ≡ true
  unfolding terminate_incoming
  terminate_incoming-incoming true e = refl
  terminate_incoming-incoming false e = ground arith

  accepted-IsMatched :
      (is_h2c_upgrade has_config : Bool) (handshake : Handshake) (t : Tunnel)
      → tunnel_terminated use_loopback counts target is_h2c_upgrade has_config handshake
        ≡ ok (some t)
      → (f : BackendFilter) × IsMatched true true f t
  unfolding tunnel_terminated
  accepted-IsMatched is_h2c_upgrade true refused t e = absurd cc
  accepted-IsMatched is_h2c_upgrade false refused t e = absurd cc
  accepted-IsMatched is_h2c_upgrade has_config peek_failed t e = absurd cc
  accepted-IsMatched is_h2c_upgrade false (accepted r) t e = absurd cc
  accepted-IsMatched is_h2c_upgrade true (accepted r) t e =
      let (f, _, m) = filtered-IsMatched true true _ t e in (f, m)

  -- A tunnel behind a handshake, or one that carries the client's bytes as they come.
  tunnel_how :
      (incoming_is_tls : Bool) (version : Option Version) (is_h2c_upgrade has_config : Bool)
      (handshake : Handshake) (t : Tunnel)
      → tunnel use_loopback counts target incoming_is_tls version is_h2c_upgrade has_config
          handshake
        ≡ ok (some t)
      → ((incoming_is_tls ≡ true) × ((f : BackendFilter) × IsMatched true true f t))
        ⊎ ((f : BackendFilter) × (backend_filter_of version
                (if incoming_is_tls then tls else clear_text)
                false
                is_h2c_upgrade
              ≡ some f)
            × IsMatched incoming_is_tls false f t)
  unfolding tunnel tunnel_terminated
  tunnel_how incoming_is_tls version is_h2c_upgrade has_config handshake t e =
      elim (Bool-cases (terminate_incoming incoming_is_tls target)) [
        | inl terminates ↦
            let same = terminate_incoming-incoming incoming_is_tls terminates in
            inl
              (same, accepted-IsMatched is_h2c_upgrade has_config handshake t (rw terminates at e))
        | inr carried ↦ inr (filtered-IsMatched incoming_is_tls false _ t (rw carried at e))
      ]

-- The backend of a tunnel is one that its target offers.
pub tunnel-IsOffered :
    (use_loopback : Bool) (counts : AccessCounts) (target : ReverseTcpProxyTarget)
    (incoming_is_tls : Bool) (version : Option Version) (is_h2c_upgrade has_config : Bool)
    (handshake : Handshake) (t : Tunnel)
    → tunnel use_loopback counts target incoming_is_tls version is_h2c_upgrade has_config handshake
      ≡ ok (some t)
    → IsOffered use_loopback target.remote_target_config target.hosted_target_config t.backend
tunnel-IsOffered use_loopback counts target incoming_is_tls version is_h2c_upgrade has_config
      handshake t e =
    elim (tunnel_how use_loopback counts target incoming_is_tls version is_h2c_upgrade has_config
      handshake t e) [ inl (same, (f, m)) ↦ m.offered | inr (f, told, m) ↦ m.offered ]

-- What a backend is sent is TLS exactly if the backend's configuration says that it speaks TLS, for every tunnel
-- that `tunnel` sets up on a connection whose TLS, if it has any, tells nothing of an HTTP version.
pub tunnel-sends_tls :
    (use_loopback : Bool) (counts : AccessCounts) (target : ReverseTcpProxyTarget)
    (incoming_is_tls : Bool) (version : Option Version) (is_h2c_upgrade has_config : Bool)
    (handshake : Handshake) (t : Tunnel)
    → (incoming_is_tls ≡ true → version ≡ none)
    → tunnel use_loopback counts target incoming_is_tls version is_h2c_upgrade has_config handshake
      ≡ ok (some t)
    → sends_tls incoming_is_tls t ≡ or_false t.backend.https
unfolding sends_tls
tunnel-sends_tls use_loopback counts target incoming_is_tls version is_h2c_upgrade has_config
      handshake t plain e =
    elim (tunnel_how use_loopback counts target incoming_is_tls version is_h2c_upgrade has_config
      handshake t e) [
        | inl (same, (f, m)) ↦
            rw (m.erected, m.as_told, same) (erect_terminated (or_false t.backend.https))
        | inr (f, told, m) ↦
            rw (m.erected, m.as_told)
              (erect_carried incoming_is_tls version is_h2c_upgrade plain f told t.backend m.passes)
      ]
