-- ===== src/Tests/Routing.antt =====
-- A request for the shop in clear text: it is found, tunnelled to its process, or terminated if that is enforced.
use odd_box.Base.{
  [], ◌∷◌, ◌<◌, ◌>>=◌, ◌≡◌, ◌↔◌, ok, none, some, true, false, inr, refl, arith, lookup, insert,
  bytes_eq, ends_with, index, eq_ignore_case, length, Bool, Bytes, ℕ, get_elem?,
}
use odd_box.Config.Backends.{http1, filter_backend, usable, next_hosted_backend, take_turn}
use odd_box.Config.Backends.Rotation.{connections, next_remote_backend_rotates}
use odd_box.Config.Sites.{any, Backend, InProcessSiteConfig, RemoteSiteConfig, OddBoxConfig}
use odd_box.Http1.Message.{codes}
use odd_box.Process.Messages.{ProcState, start}
use odd_box.Routing.Dispatch.{
  tunnelled, is_own_name, handle_new_tcp_stream, handle_found, handle_name, go_to, gate_hosted,
  Surroundings, Handled, served,
}
use odd_box.Routing.Dispatch.Permission.{handle_new_tcp_stream-IsPermitted, IsPermitted, LeadsTo}
use odd_box.Routing.Dispatch.Enforcement.{handle_new_tcp_stream-enforced}
use odd_box.Routing.Finding.{
  cached, find_container, find_hosted, find_remote, hosted_target, try_find_site,
}
use odd_box.Routing.Finding.Answers.{try_find_site-Answers, Answers}
use odd_box.Routing.Finding.Cache.{
  try_find_site-search, try_find_site_stale, search, IsCoherent, LeavesCoherent,
}
use odd_box.Routing.Names.{filter_fun, before_colon, get_subdomain, front_of, trim_dots}
use odd_box.Routing.Names.Labels.{get_subdomain-IsCut, IsCut}
use odd_box.Routing.Target.{http_11, clear_text, PeekResult, ReverseTcpProxyTarget}
use odd_box.Routing.Tracking.{
  get_connection, get_connection_type, mutate_tracked_connection, update_tracked_info, invalid,
  pending_init, ProxyActiveTcpConnection, StreamStatus,
}
use odd_box.Routing.Tunnel.{
  backend_filter_of, erect_tls_tunnel, next_backend, refused, tell_tunnel, terminate_incoming,
  tunnel, tunnel_with, Tunnel,
}
use odd_box.Routing.Tunnel.Kinds.{tunnel-get_connection_type}
use odd_box.Routing.Tunnel.Matching.{sends_tls, tunnel-sends_tls}
use odd_box.Tests.Fixtures.{shop, config, running_config, upper_case}

abbrev running_shop : InProcessSiteConfig
running_shop = record shop { active_port = some 4202 }

abbrev enforcing_shop : InProcessSiteConfig
enforcing_shop = record running_shop { terminate_http = some true }

abbrev enforcing_config : OddBoxConfig
enforcing_config = record config { hosted_process = some (enforcing_shop ∷ []) }

abbrev shop_name : Bytes
shop_name = codes "shop.se"

abbrev shop_target : ReverseTcpProxyTarget
shop_target = hosted_target (codes "localhost") running_shop none

abbrev enforcing_target : ReverseTcpProxyTarget
enforcing_target = hosted_target (codes "localhost") enforcing_shop none

abbrev everyone : ℕ → Bool
everyone id = true

nothing-IsCoherent : IsCoherent upper_case running_config [] []
unfolding lookup
nothing-IsCoherent name t e = cc

shop_found :
    try_find_site upper_case everyone running_config [] [] shop_name
    ≡ ok ((shop_name, shop_target) ∷ [], some shop_target)
unfolding try_find_site cached find_container find_hosted find_remote filter_fun before_colon
    eq_ignore_case lookup insert hosted_target
shop_found = refl

try_find_site-search_example :
    ((try_find_site upper_case everyone running_config [] [] shop_name >>= λ p. ok p.1)
      ≡ search upper_case running_config [] shop_name)
    × LeavesCoherent upper_case running_config []
        (try_find_site upper_case everyone running_config [] [] shop_name)
try_find_site-search_example =
    try_find_site-search upper_case running_config [] everyone [] shop_name nothing-IsCoherent

try_find_site-Answers_example : Answers upper_case shop_name shop_target
try_find_site-Answers_example =
    try_find_site-Answers upper_case running_config [] everyone [] ((shop_name, shop_target) ∷ [])
      shop_name shop_target nothing-IsCoherent shop_found

try_find_site_stale_example :
    try_find_site upper_case everyone config [] ((shop_name, shop_target) ∷ []) shop_name
    ≡ ok ((shop_name, shop_target) ∷ [], some shop_target)
unfolding hosted_target
try_find_site_stale_example =
    try_find_site_stale upper_case everyone everyone running_config config [] [] []
      ((shop_name, shop_target) ∷ []) shop_name shop_target 1 shop_found refl refl

abbrev peeked : PeekResult
peeked = record {
  typ = clear_text;
  http_version = some http_11;
  target_host = some shop_name;
  is_h2c_upgrade = false;
  sni = none;
  host_header = some shop_name;
}

abbrev surroundings : Surroundings
surroundings = record {
  is_https_listener = false;
  config = running_config;
  containers = [];
  cache = [];
  has_thread = everyone;
  status = λ name. some ProcState.stopped;
  counts = [];
  handshake = refused;
  accepts = false;
}

abbrev shop_backend : Backend
shop_backend = record { address = codes "localhost"; port = 4202; https = none; hints = none }

abbrev shop_tunnel : Tunnel
shop_tunnel = record { backend = shop_backend; client_tls_is_terminated = false; erect_tls = false }

abbrev handled : Handled
handled = record {
  cache = (shop_name, shop_target) ∷ [];
  sent = start shop_name ∷ [];
  ending = tunnelled shop_tunnel;
}

shop_tunnelled :
    tunnel false [] shop_target false (some http_11) false false refused ≡ ok (some shop_tunnel)
unfolding tunnel tunnel_with terminate_incoming backend_filter_of next_backend next_hosted_backend
    filter_backend usable take_turn erect_tls_tunnel hosted_target any
shop_tunnelled = refl

shop_handled : handle_new_tcp_stream surroundings upper_case (inr peeked) ≡ ok handled
unfolding handle_new_tcp_stream handle_name handle_found go_to gate_hosted is_own_name bytes_eq
    hosted_target
shop_handled = simp (shop_found, shop_tunnelled) refl

handle_new_tcp_stream-IsPermitted_example :
    (requested : Bytes) × (target : ReverseTcpProxyTarget) × (some shop_name ≡ some requested)
    × (try_find_site upper_case everyone running_config [] [] requested
        ≡ ok ((shop_name, shop_target) ∷ [], some target))
    × IsPermitted target false
    × LeadsTo surroundings target peeked shop_tunnel
handle_new_tcp_stream-IsPermitted_example =
    handle_new_tcp_stream-IsPermitted surroundings upper_case peeked handled shop_tunnel
      shop_handled refl

enforcing_found :
    try_find_site upper_case everyone enforcing_config [] [] shop_name
    ≡ ok ((shop_name, enforcing_target) ∷ [], some enforcing_target)
unfolding try_find_site cached find_container find_hosted find_remote filter_fun before_colon
    eq_ignore_case lookup insert hosted_target
enforcing_found = refl

handle_new_tcp_stream-enforced_example :
    handle_new_tcp_stream
      (record surroundings { config = enforcing_config })
      upper_case
      (inr peeked)
    ≡ ok (record { cache = (shop_name, enforcing_target) ∷ []; sent = []; ending = served false })
unfolding hosted_target is_own_name bytes_eq
handle_new_tcp_stream-enforced_example =
    handle_new_tcp_stream-enforced (record surroundings { config = enforcing_config }) upper_case
      peeked shop_name ((shop_name, enforcing_target) ∷ []) enforcing_target refl refl
      enforcing_found refl

tunnel-sends_tls_example : sends_tls false shop_tunnel ≡ false
tunnel-sends_tls_example =
    tunnel-sends_tls false [] shop_target false (some http_11) false false refused shop_tunnel
      (λ e. cc) shop_tunnelled

abbrev tracked : ProxyActiveTcpConnection
tracked = record {
  incoming_sni = none;
  connection_key = 7;
  incoming_connection_uses_tls = false;
  tls_terminated = false;
  http_terminated = false;
  version = 1;
  resolved_connection_type = some pending_init;
  outgoing_tunnel_type = none;
}

abbrev stream_status : StreamStatus
stream_status = record { is_tls = false; is_tls_terminated = false; is_http_terminated = false }

tunnel-get_connection_type_example :
    (d : ProxyActiveTcpConnection) × (get_connection 7 (
        mutate_tracked_connection 7
          (update_tracked_info stream_status (tell_tunnel false shop_target shop_tunnel))
          (tracked ∷ []))
      ≡ some d)
    × ((get_connection_type d ≡ invalid) ↔ ((false ≡ true) × (false ≡ false)))
unfolding get_connection
tunnel-get_connection_type_example =
    tunnel-get_connection_type false [] shop_target false (some http_11) false false refused
      shop_tunnel stream_status 7 (tracked ∷ []) tracked (λ e. cc) shop_tunnelled refl refl refl
      (omega arith)

abbrev twin : Backend
twin = record shop_backend { port = 4204 }

abbrev remote_site : RemoteSiteConfig
remote_site = record {
  host_name = codes "twins.se";
  backends = shop_backend ∷ twin ∷ [];
  capture_subdomains = none;
  terminate_tls = none;
  terminate_http = none;
  forward_subdomains = none;
  enable_lets_encrypt = none;
  keep_original_host_header = none;
  redirect_to_https = none;
}

next_remote_backend_rotates_example :
    (j : ℕ) × (j < length (usable http1 (shop_backend ∷ twin ∷ [])))
    × (get_elem? (connections remote_site http1 2 ((codes "twins.se", 8) ∷ [])) j
        ≡ some (some twin))
unfolding usable filter_backend any
next_remote_backend_rotates_example =
    next_remote_backend_rotates remote_site ((codes "twins.se", 8) ∷ []) http1 1 twin refl

subdomain_cut :
    get_subdomain upper_case (codes "a.Shop.se") (codes "shop.se") ≡ ok (some (codes "a"))
unfolding get_subdomain front_of trim_dots bytes_eq index
subdomain_cut = refl

get_subdomain-IsCut_example :
    IsCut (codes "a.Shop.se") (codes "shop.se") (codes "a")
    × (ends_with (upper_case (codes "a.Shop.se")) (upper_case (codes "shop.se")) ≡ true)
get_subdomain-IsCut_example =
    get_subdomain-IsCut upper_case (codes "a.Shop.se") (codes "shop.se") (codes "a") subdomain_cut
