-- ===== src/Routing/Tracking.antt =====
-- src/types/proxy_state.rs and src/types/connection_type.rs: what is known of a connection, and its kind. The
-- connections are tracked by src/proxy.rs under a key each. The addresses of the sockets, the weak pointer to the
-- key, the text of the description and three flags that the classification does not read are left out.
use odd_box.Base.{
  true, false, none, some, [], ◌∷◌, ◌+◌, Bytes, ◌==◌, Bool, List, Option, if◌then◌else◌, ℕ,
}
use odd_box.Config.Sites.{Backend}
use odd_box.Routing.Target.{ReverseTcpProxyTarget}

pub data OutgoingTunnelType : Type 0 where
  tls_tunnel raw_tunnel : ReverseTcpProxyTarget → Backend → OutgoingTunnelType

pub data ConnectionType : Type 0 where
  tls_terminated_with_outgoing_clear_text tls_terminated_with_outgoing_tls tls_passthru
        http_passthru http_with_outgoing_tls :
      ReverseTcpProxyTarget → Backend → ConnectionType
  tls_termination http_termination pending_init invalid : ConnectionType

pub record ProxyActiveTcpConnection : Type 0 where
  pub incoming_sni : Option Bytes
  pub connection_key : ℕ
  pub incoming_connection_uses_tls : Bool
  pub tls_terminated : Bool
  pub http_terminated : Bool
  pub version : ℕ
  pub resolved_connection_type : Option ConnectionType
  pub outgoing_tunnel_type : Option OutgoingTunnelType

-- The `match` on what is known, row by row.
unfoldable pub classify : Bool → Bool → Bool → Option OutgoingTunnelType → ConnectionType
classify false _ _ (some (raw_tunnel target backend)) = http_passthru target backend
classify false _ _ (some (tls_tunnel target backend)) = http_with_outgoing_tls target backend
classify false false true none = http_termination
classify true true false (some (tls_tunnel target backend)) =
    tls_terminated_with_outgoing_tls target backend
classify true true false (some (raw_tunnel target backend)) =
    tls_terminated_with_outgoing_clear_text target backend
classify true false false (some (raw_tunnel target backend)) = tls_passthru target backend
classify true true true none = tls_termination
classify _ _ _ _ = invalid

unfoldable pub get_connection_type : ProxyActiveTcpConnection → ConnectionType
get_connection_type c =
    if c.version == 1
    then pending_init
    else classify c.incoming_connection_uses_tls c.tls_terminated c.http_terminated
        c.outgoing_tunnel_type

-- `active_connections`
abbrev pub Connections : Type 0
Connections = List ProxyActiveTcpConnection

unfoldable pub del_connection : ℕ → Connections → Connections
del_connection key [] = []
del_connection key (c ∷ cs) =
    let rest = del_connection key cs in if c.connection_key == key then rest else c ∷ rest

-- `add_or_update_connection`, while the key is held: what is known at that time resolves the type.
unfoldable pub add_or_update_connection : ProxyActiveTcpConnection → Connections → Connections
add_or_update_connection c cs =
    resolve c.resolved_connection_type ∷ del_connection c.connection_key cs
  where
    resolve : Option ConnectionType → ProxyActiveTcpConnection
    resolve none = record c { resolved_connection_type = some (get_connection_type c) }
    resolve (some t) = c

unfoldable pub get_connection : ℕ → Connections → Option ProxyActiveTcpConnection
get_connection key [] = none
get_connection key (c ∷ cs) =
    let rest = get_connection key cs in if c.connection_key == key then some c else rest

-- `mutate_tracked_connection`: the mutator's change, and the next version.
unfoldable pub mutate_tracked_connection :
    ℕ → (ProxyActiveTcpConnection → ProxyActiveTcpConnection) → Connections → Connections
mutate_tracked_connection key mutator [] = []
mutate_tracked_connection key mutator (c ∷ cs) =
    let rest = mutate_tracked_connection key mutator cs in
    if c.connection_key == key
    then record (mutator c) { version = c.version + 1 } ∷ cs
    else c ∷ rest

-- What a managed stream knows of itself.
pub record StreamStatus : Type 0 where
  pub is_tls : Bool
  pub is_tls_terminated : Bool
  pub is_http_terminated : Bool

-- `update_tracked_info`: the stream's own status, and then the change that is asked for.
unfoldable pub update_tracked_info :
    StreamStatus
    → (ProxyActiveTcpConnection → ProxyActiveTcpConnection)
    → ProxyActiveTcpConnection
    → ProxyActiveTcpConnection
update_tracked_info s f c = f (record c {
  incoming_connection_uses_tls = s.is_tls;
  tls_terminated = s.is_tls_terminated;
  http_terminated = s.is_http_terminated;
})
