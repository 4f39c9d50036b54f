-- ===== src/Routing.antt =====
-- From a peeked connection to a tunnel or a terminating proxy: src/main.rs, src/proxy.rs,
-- src/tcp_proxy/tcp.rs and src/types/proxy_state.rs.
pub mod Names
pub mod Finding
pub mod Target
pub mod Tracking
pub mod Tunnel
pub mod Peeking
pub mod Dispatch
