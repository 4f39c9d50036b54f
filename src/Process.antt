-- ===== src/Process.antt =====
-- The processes that the proxy hosts: src/proc_host.rs, and the types of src/http_proxy/mod.rs and src/types that it
-- shares with the rest.
pub mod Messages
pub mod Status
pub mod Launch
pub mod Host
