-- ===== src/Lib.antt =====
-- odd-box, a reverse proxy: what it makes of a connection, from the first bytes to the choice of where they go, and what
-- it does for the processes that it forwards to.
--
-- A connection is accepted by src/proxy.rs and wrapped in a stream that is peeked at. If it begins with a TLS handshake
-- the ClientHello is parsed and its host name chooses the target; otherwise the first request head is looked at for its
-- host. The target is looked up among containers, hosted processes and remote sites, behind a cache, and its settings
-- decide whether the connection goes into a tunnel to one of its backends or to the terminating proxy. When traffic is
-- forwarded in the clear, copies of the bytes of both directions go to an observer of HTTP/1 or of HTTP/2. A hosted
-- process is kept by a task of src/proc_host.rs, which chooses its port, starts it, and lists its state in a map that the
-- connections read; they send it messages in turn.
--
-- - Base: the outcomes of code (`Exec`: a value, an error, a panic by an index or a slice out of bounds, or a
--   loop whose fuel is used up), bytes as native numbers, ASCII and UTF-8, `&[u8]` as a list of bytes, maps under texts.
-- - Tls: src/tcp_proxy/tls. Tls/Extension has `TlsExtensionType` and its codes, Tls/ClientHello has
--   `TlsClientHello::try_from` cut into its steps, Tls/Sni has `read_sni_hostname`. Tls/Encoding writes a
--   ClientHello as RFC 8446 lays it out, and is the description that the parser is held against. Tls/Labels
--   has the hexadecimal labels.
-- - Http1/Initial: src/tcp_proxy/h1_initial_parser.rs, `parse_http_request_fast`. Http1/Initial/Lines has lines as the
--   description of a request, and Http1/Initial/Headers the header lines that count, with their values.
-- - Http1/Frame: `parse_websocket_frame` of src/tcp_proxy/h1_parser.rs, with its sums in a 64-bit usize that
--   wrap around as they do in a release build.
-- - Http1/Message: `parse_http_request` and `parse_http_response` around the crate httparse, which is the
--   parameter `Httparse`; Http1/Observer/Progress names what is asked of it (a complete head is not empty and is no
--   longer than the buffer).
-- - Http1/Observer: `H1Observer`, its two buffers and its three states, with the loops of `parse` as `drain`.
-- - Http2/Event, Http2/Frame, Http2/Payload, Http2/Stream, Http2/Buffer, Http2/Handlers, Http2/Observer:
--   src/tcp_proxy/h2_parser.rs, `H2Observer` and what it is made of. The HPACK decoder of the crate
--   hpack_patched is the parameter `Hpack`, one state for each direction. Http2/Wire and Http2/Preface
--   describe what a peer writes, and Http2/Observer/Blocks a header block that comes in pieces. Maps are association lists
--   in which a key stands once.
-- - Config/Sites: the records of src/configuration/v3.rs. Config/Backends: `filter_backend` and `next_backend` of the two
--   kinds of site, whose counts of accesses are an argument, and the counting of a connection that is made, which
--   src/tcp_proxy/tcp.rs does. Config/Containers: src/docker.rs, the site that a container is
--   taken for.
-- - Config/Ports: `busy_ports` and `set_active_port` of src/configuration/mod.rs, by which a hosted process gets the
--   port it is started on. Whether a port is free, and a random free port, are parameters: the answers of the
--   operating system, taken not to change during one choice. Config/Ports/Claims says when a process claims a port.
-- - Routing/Target: the target and the result of a peek, src/tcp_proxy/tcp.rs. Routing/Names: `get_subdomain` there and
--   `filter_fun` of src/main.rs. Routing/Finding: `try_find_site` of src/main.rs with its cache. `str::to_uppercase` is a
--   parameter of them, and so is the set of processes that have a host thread.
-- - Routing/Peeking: `peek_managed_stream` of src/tcp_proxy/managed_stream.rs over the looks that the socket gives, with
--   `is_valid_http_request` of src/tcp_proxy/http1.rs; it calls Tls, Http1/Initial and Http2.
-- - Routing/Tunnel: `tunnel` of src/tcp_proxy/tcp.rs up to the connection to the backend. Routing/Tracking: what is known of
--   a connection, src/types/proxy_state.rs and src/types/connection_type.rs.
-- - Routing/Dispatch: `handle_new_tcp_stream` and `use_fallback_mode` of src/proxy.rs, which calls Routing/Finding and
--   Routing/Tunnel. How the handshakes end is a parameter.
-- - Process/Messages: the messages of src/http_proxy/mod.rs and the states of src/types/app_state.rs. Process/Status:
--   `update_status`; Process/Launch: the environment and the arguments of a child; Process/Host: `host`, one function for a
--   turn without a child and one for a turn with one, all three of src/proc_host.rs. Process/Host/Reachable has the steps
--   that the task and the rest of the proxy take on its state: the terminal interface and the administration API also write
--   to the map of states, but never that a process is running.
-- - Config/Old: the records of src/configuration/legacy.rs, v1.rs and v2.rs. Config/Upgrade: the conversions between the
--   versions, and `try_upgrade_to_latest_version` of src/configuration/mod.rs; the identifiers of processes are a parameter.
-- - Config/Wrapper: `ConfigWrapper` of src/configuration/mod.rs, its maps, `is_valid`, and the replacement of sites.
-- - Config/Resolve: `resolve_process_configuration` of src/configuration/mod.rs, with the directories of the operating
--   system as a parameter. Config/Reload: `reload_from_disk` of src/configuration/reload.rs from a new configuration that
--   differs from the active one on, where the tasks that it waits for have ended.
-- - Tests: runs of the model on inputs that can be followed in the source.
--
-- A loop of the source is structural recursion where it walks a list; the others run on fuel and end in
-- `stalled` without it. The fuel is the length of the buffer that the loop consumes (and one more), which is
-- enough since each turn takes at least a byte off that buffer. The search for a port has fuel for every number of
-- a `u16`; in the source it runs on for ever when no port is available. The loop that peeks and the loops of a process's
-- task are walked over what they meet, one entry for each turn.
--
-- Not modelled: sockets, tasks, locks and wakers, TLS sessions, the copying of bytes in a tunnel, the Display
-- implementations, logging, the terminating proxy behind hyper, certificates, the reading and writing of configuration
-- files, and the user interfaces. The wrap-around of `usize` is modelled where the source adds announced lengths.
pub mod Base
pub mod Config
pub mod Tls
pub mod Http1
pub mod Http2
pub mod Routing
pub mod Process
mod Tests
