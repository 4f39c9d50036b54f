-- ===== src/Routing/Tunnel/Kinds.antt =====
-- The kind that a tunnelled connection is tracked as.
use odd_box.Base.{
  sym, ◌||◌, refl, if◌then◌else◌, ==_iff, arith, ◌∙◌, ◌↔◌, ◌≤◌, false, ok, none, true, Option, Bool,
  [], inr, ◌∷◌, ap, inl, ◌==◌, Bool-cases, ◌+◌, some, ◌≡◌, ℕ,
}
use odd_box.Routing.Tracking.{
  raw_tunnel, tls_tunnel, classify, invalid, get_connection_type, StreamStatus, update_tracked_info,
  Connections, ProxyActiveTcpConnection, mutate_tracked_connection, get_connection,
}
use odd_box.Routing.Tunnel.Matching.{tunnel-sends_tls, sends_tls}
use odd_box.Config.Sites.{Backend, or_false}
use odd_box.Routing.Tunnel.{tunnel_type, tunnel, Tunnel, Handshake, tell_tunnel}
use odd_box.Routing.Target.{Version, ReverseTcpProxyTarget}
use odd_box.Config.Backends.{AccessCounts}
use mathlib.Core.Option.{some-injective}

get_connection-mutate_tracked_connection :
    (key : ℕ) (f : ProxyActiveTcpConnection → ProxyActiveTcpConnection)
    (keeps : (c : ProxyActiveTcpConnection) → (f c).connection_key ≡ c.connection_key)
    (cs : Connections) {c : ProxyActiveTcpConnection}
    → get_connection key cs ≡ some c
    → get_connection key (mutate_tracked_connection key f cs)
      ≡ some (record (f c) { version = c.version + 1 })
unfolding get_connection mutate_tracked_connection
get_connection-mutate_tracked_connection key f keeps [] {c} e = absurd cc
get_connection-mutate_tracked_connection key f keeps (d ∷ cs) {c} e =
    elim (Bool-cases (d.connection_key == key)) [
      | inl same ↦
          let found : d ≡ c = some-injective d c (rw same at e) in
          rw (same, ap (λ k. k == key) (keeps d) ∙ same)
            (ap (λ x. some (record (f x) { version = x.version + 1 })) found)
      | inr other ↦
          rw (other, other)
            (get_connection-mutate_tracked_connection key f keeps cs (rw other at e))
    ]

not_first : (v : ℕ) → 1 ≤ v → ((v + 1) == 1) ≡ false
not_first v h = elim (Bool-cases ((v + 1) == 1)) [
  | inl same ↦ absurd (omega (arith, (==_iff (v + 1) 1).0 same))
  | inr differ ↦ differ
]

carried :
    {incoming_is_tls : Bool} (https : Bool) (t : Tunnel)
    → incoming_is_tls ≡ true
    → t.client_tls_is_terminated ≡ false
    → sends_tls incoming_is_tls t ≡ https
    → https ≡ true
unfolding sends_tls
carried https t a b e = sym (rw (a, b) at e) ∙ or_true t.erect_tls
  where
    or_true : (x : Bool) → (x || true) ≡ true
    or_true true = refl
    or_true false = refl

kinds :
    (incoming_is_tls terminated : Bool) (target : ReverseTcpProxyTarget) (b : Backend)
    (https : Bool)
    → (incoming_is_tls ≡ true → terminated ≡ false → https ≡ true)
    → (classify incoming_is_tls terminated false
          (some (if https then tls_tunnel target b else raw_tunnel target b))
        ≡ invalid)
      ↔ ((incoming_is_tls ≡ true) × (terminated ≡ false))
unfolding classify
kinds false terminated target b true k = (λ e. absurd cc, λ h. let e = h.0 in absurd cc)
kinds false terminated target b false k = (λ e. absurd cc, λ h. let e = h.0 in absurd cc)
kinds true true target b true k = (λ e. absurd cc, λ h. let e = h.1 in absurd cc)
kinds true true target b false k = (λ e. absurd cc, λ h. let e = h.1 in absurd cc)
kinds true false target b true k = (λ e. (refl, refl), λ h. refl)
kinds true false target b false k = let e = k refl refl in absurd cc

-- A tunnel's connection, whose version the tracking counts from 1, is of a kind that `get_connection_type` holds for
-- impossible exactly if the client's TLS is carried to the backend as it comes, on a connection whose TLS tells
-- nothing of an HTTP version: a passed through TLS connection is always tracked as invalid.
pub tunnel-get_connection_type :
    (use_loopback : Bool) (counts : AccessCounts) (target : ReverseTcpProxyTarget)
    (incoming_is_tls : Bool) (version : Option Version) (is_h2c_upgrade has_config : Bool)
    (handshake : Handshake) (t : Tunnel) (s : StreamStatus) (key : ℕ) (cs : Connections)
    (c : ProxyActiveTcpConnection)
    → (incoming_is_tls ≡ true → version ≡ none)
    → tunnel use_loopback counts target incoming_is_tls version is_h2c_upgrade has_config handshake
      ≡ ok (some t)
    → s.is_tls_terminated ≡ t.client_tls_is_terminated
    → s.is_http_terminated ≡ false
    → get_connection key cs ≡ some c
    → 1 ≤ c.version
    → (d : ProxyActiveTcpConnection) × (get_connection key (
          mutate_tracked_connection key
            (update_tracked_info s (tell_tunnel incoming_is_tls target t))
            cs)
        ≡ some d)
      × ((get_connection_type d ≡ invalid)
          ↔ ((incoming_is_tls ≡ true) × (t.client_tls_is_terminated ≡ false)))
unfolding update_tracked_info tell_tunnel get_connection_type tunnel_type
tunnel-get_connection_type use_loopback counts target incoming_is_tls version is_h2c_upgrade
      has_config handshake t s key cs c plain e terminated clear tracked counted =
    (
      _,
      get_connection-mutate_tracked_connection key
          (update_tracked_info s (tell_tunnel incoming_is_tls target t)) (λ x. refl) cs tracked,
      rw (terminated, clear, not_first c.version counted)
          (kinds incoming_is_tls t.client_tls_is_terminated target t.backend
            (or_false t.backend.https)
            (λ a b. carried (or_false t.backend.https) t a b (
              tunnel-sends_tls use_loopback counts target incoming_is_tls version is_h2c_upgrade
                has_config handshake t plain e))),
    )
