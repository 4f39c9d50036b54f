-- ===== src/Config/Backends.antt =====
-- src/configuration/v3.rs: which backends of a site may take a connection, and which of them is next.
pub mod Rotation
use odd_box.Config.Sites.{
  h2c, h1, h2cpk, h2, or_empty, hint_eq, or_false, any, Backend, Hint, InProcessSiteConfig,
  RemoteSiteConfig,
}
use odd_box.Base.{
  ◌+◌, ◌==◌, length, ◌%◌, get_elem?, ◌||◌, some, [], bytes_eq, none, Option, if◌then◌else◌, true,
  ◌∷◌, Bool, Bytes, List, ℕ,
}
use odd_box.Http1.Message.{codes, or_else}

pub data BackendFilter : Type 0 where
  any_backend h2_or_h2cpk http2 http1 h2c_prior_knowledge h2c_upgrade any_tls : BackendFilter

abbrev has_hint : Hint → Backend → Bool
has_hint hint b = any (λ h. hint_eq h hint) (or_empty b.hints)

unfoldable pub filter_backend : BackendFilter → Backend → Bool
filter_backend any_backend b = true
filter_backend any_tls b = or_false b.https
filter_backend h2_or_h2cpk b = any (λ h. hint_eq h h2 || hint_eq h h2cpk) (or_empty b.hints)
filter_backend http2 b = has_hint h2 b
filter_backend http1 b = (length (or_empty b.hints) == 0) || has_hint h1 b
filter_backend h2c_prior_knowledge b = has_hint h2cpk b
filter_backend h2c_upgrade b = has_hint h2c b

-- `iter().filter(..)`
unfoldable pub usable : BackendFilter → List Backend → List Backend
usable f [] = []
usable f (b ∷ bs) = let rest = usable f bs in if filter_backend f b then b ∷ rest else rest

-- `lb_access_count_per_hostname`: how many tunnels each host has had.
abbrev pub AccessCounts : Type 0
AccessCounts = List (Bytes × ℕ)

unfoldable pub access_count : Bytes → AccessCounts → ℕ
access_count host [] = 0
access_count host ((name, n) ∷ counts) =
    let rest = access_count host counts in if bytes_eq name host then n else rest

-- A connection that is made to a backend is counted: `fetch_add`, or the first entry of the host.
unfoldable pub count_connection : Bytes → AccessCounts → AccessCounts
count_connection host [] = (host, 1) ∷ []
count_connection host ((name, n) ∷ counts) =
    let rest = count_connection host counts in
    if bytes_eq name host then (name, n + 1) ∷ counts else (name, n) ∷ rest

-- The filtered backends by turns; one alone is taken at once.
unfoldable pub take_turn : ℕ → List Backend → Option Backend
take_turn count [] = none
take_turn count (b ∷ []) = some b
take_turn count (b ∷ c ∷ bs) = get_elem? (b ∷ c ∷ bs) (count % length (b ∷ c ∷ bs))

-- `RemoteSiteConfig::next_backend`
unfoldable pub next_remote_backend :
    RemoteSiteConfig → AccessCounts → BackendFilter → Option Backend
next_remote_backend site counts f =
    take_turn (access_count site.host_name counts) (usable f site.backends)

-- The port of a hosted process.
abbrev pub hosted_port : InProcessSiteConfig → ℕ
hosted_port site =
    or_else site.active_port (or_else site.port (if or_false site.https then 443 else 80))

abbrev pub local_address : Bool → Bytes
local_address use_loopback = if use_loopback then codes "127.0.0.1" else codes "localhost"

-- `InProcessSiteConfig::next_backend`: the process itself is the one backend.
unfoldable pub next_hosted_backend :
    Bool → InProcessSiteConfig → AccessCounts → BackendFilter → Option Backend
next_hosted_backend use_loopback site counts f =
    let backend : Backend = record {
      address = local_address use_loopback;
      port = hosted_port site;
      https = site.https;
      hints = site.hints;
    } in
    take_turn (access_count site.host_name counts) (usable f (backend ∷ []))
