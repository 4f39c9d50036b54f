-- ===== src/Routing/Finding.antt =====
-- `GlobalState::try_find_site` of src/main.rs: the target of a host name, out of the containers, the hosted processes
-- and the remote sites, behind a cache. `str::to_uppercase` is a parameter, and so is the set of processes that have a
-- host thread; the containers come in the order in which their map is walked.
pub mod Cache
pub mod Answers
use odd_box.Base.{
  ◌>>=◌, ◌&&◌, ◌||◌, ◌∷◌, [], ok, none, some, true, false, ltb, if◌then◌else◌, bytes_eq, take,
  length, lookup, insert, Exec, Bool, Option, Bytes, List, ℕ,
}
use odd_box.Config.Backends.{local_address}
use odd_box.Config.Containers.{ContainerProxyTarget, generate_remote_config}
use odd_box.Config.Sites.{or_false, or_empty, InProcessSiteConfig, RemoteSiteConfig, OddBoxConfig}
use odd_box.Http1.Message.{or_else}
use odd_box.Routing.Names.{filter_fun}
use odd_box.Routing.Target.{ReverseTcpProxyTarget}

-- `str::contains`
unfoldable pub contains_bytes : Bytes → Bytes → Bool
contains_bytes [] needle = bytes_eq [] needle
contains_bytes (b ∷ bs) needle =
    bytes_eq (take (length needle) (b ∷ bs)) needle || contains_bytes bs needle

abbrev pub Containers : Type 0
Containers = List (Bytes × ContainerProxyTarget)

-- `reverse_tcp_proxy_target_cache`
abbrev pub TargetCache : Type 0
TargetCache = List (Bytes × ReverseTcpProxyTarget)

-- A search that may panic in `get_subdomain`.
abbrev pub Search : Type 0
Search = Exec (Unit {0}) (Option ReverseTcpProxyTarget)

unfoldable pub container_target :
    Bytes → ContainerProxyTarget → Option Bytes → ReverseTcpProxyTarget
unfolding generate_remote_config
container_target host_name x sub_domain =
    let rsc = generate_remote_config x in
    record {
      remote_target_config = some rsc;
      hosted_target_config = none;
      backends = rsc.backends;
      host_name = host_name;
      is_hosted = false;
      capture_subdomains = true;
      forward_wildcard = true;
      sub_domain = sub_domain;
      terminate_tls = false;
      proc_id = none;
    }

unfoldable pub hosted_target : Bytes → InProcessSiteConfig → Option Bytes → ReverseTcpProxyTarget
hosted_target local_addr y sub_domain = record {
  remote_target_config = none;
  hosted_target_config = some y;
  backends =
      record {
        address = local_addr;
        port = or_else y.active_port 0;
        https = y.https;
        hints = y.hints;
      }
      ∷ [];
  host_name = y.host_name;
  is_hosted = true;
  capture_subdomains = or_false y.capture_subdomains;
  forward_wildcard = or_false y.forward_subdomains;
  sub_domain = sub_domain;
  terminate_tls = or_false y.terminate_tls;
  proc_id = some y.proc_id;
}

unfoldable pub remote_target_of : RemoteSiteConfig → Option Bytes → ReverseTcpProxyTarget
remote_target_of y sub_domain = record {
  remote_target_config = some y;
  hosted_target_config = none;
  backends = y.backends;
  host_name = y.host_name;
  is_hosted = false;
  capture_subdomains = or_false y.capture_subdomains;
  forward_wildcard = or_false y.forward_subdomains;
  sub_domain = sub_domain;
  terminate_tls = or_false y.terminate_tls;
  proc_id = none;
}

-- The last insertion of a call is the one that the cache keeps; an empty result is not stored.
abbrev pub store : Bytes → Option ReverseTcpProxyTarget → TargetCache → TargetCache
store requested none cache = cache
store requested (some t) cache = insert requested t cache

-- A later kind of site takes the place of an earlier one.
abbrev pub later_wins :
    Option ReverseTcpProxyTarget → Option ReverseTcpProxyTarget → Option ReverseTcpProxyTarget
later_wins earlier none = earlier
later_wins earlier (some t) = some t

-- A cached target is taken if it is of a process that still has a host thread.
abbrev pub if_alive : (ℕ → Bool) → ReverseTcpProxyTarget → Option ℕ → Option ReverseTcpProxyTarget
if_alive has_thread t none = none
if_alive has_thread t (some id) = if has_thread id then some t else none

unfoldable pub cached : (ℕ → Bool) → Option ReverseTcpProxyTarget → Option ReverseTcpProxyTarget
cached has_thread none = none
cached has_thread (some t) = if_alive has_thread t t.proc_id

module _ (to_uppercase : Bytes → Bytes) where
  -- The loop over the containers, up to the first match.
  unfoldable pub find_container : Bytes → Containers → Search
  find_container requested [] = ok none
  find_container requested ((host_name, x) ∷ xs) =
      filter_fun to_uppercase requested host_name true >>= λ r. elim r [
        | none ↦ find_container requested xs
        | some sub_domain ↦ ok (some (container_target host_name x sub_domain))
      ]

  -- The loop over the hosted processes; one that has no port is passed over.
  unfoldable pub find_hosted : Bytes → Bytes → List InProcessSiteConfig → Search
  find_hosted local_addr requested [] = ok none
  find_hosted local_addr requested (y ∷ ys) =
      filter_fun to_uppercase requested y.host_name (or_false y.capture_subdomains) >>= λ r.
      elim r [
        | none ↦ find_hosted local_addr requested ys
        | some sub_domain ↦ elim (ltb 0 (or_else y.active_port 0)) [
          | true ↦ ok (some (hosted_target local_addr y sub_domain))
          | false ↦ find_hosted local_addr requested ys
        ]
      ]

  -- The loop over the remote sites whose name occurs in the requested one.
  unfoldable pub find_remote : Bytes → List RemoteSiteConfig → Search
  find_remote requested [] = ok none
  find_remote requested (y ∷ ys) =
      elim (contains_bytes (to_uppercase requested) (to_uppercase y.host_name)) [
        | false ↦ find_remote requested ys
        | true ↦
            filter_fun to_uppercase requested y.host_name (or_false y.capture_subdomains) >>= λ r.
            elim r [
              | none ↦ find_remote requested ys
              | some sub_domain ↦ ok (some (remote_target_of y sub_domain))
            ]
      ]

  unfoldable pub try_find_site :
      (ℕ → Bool)
      → OddBoxConfig
      → Containers
      → TargetCache
      → Bytes
      → Exec (Unit {0}) (TargetCache × Option ReverseTcpProxyTarget)
  try_find_site has_thread cfg containers cache requested =
      elim (cached has_thread (lookup requested cache)) [
        | some t ↦ ok (cache, some t)
        | none ↦ do
          d ← find_container requested containers
          h ←
              find_hosted (local_address (or_false cfg.use_loopback_ip_for_procs)) requested
                (or_empty cfg.hosted_process)
          r ← find_remote requested (or_empty cfg.remote_target)
          ok (
            store requested r (store requested h (store requested d cache)),
            later_wins (later_wins d h) r,
          )
      ]
