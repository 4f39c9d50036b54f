-- ===== src/Config.antt =====
-- The configuration while the proxy runs: src/configuration.
pub mod Sites
pub mod Old
pub mod Upgrade
pub mod Containers
pub mod Backends
pub mod Ports
pub mod Wrapper
pub mod Resolve
pub mod Reload
