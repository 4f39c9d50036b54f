-- ===== src/Tls.antt =====
-- Reading the server name out of a TLS ClientHello, so that a connection can be routed without
-- decrypting it: src/tcp_proxy/tls.
pub mod Extension
pub mod ClientHello
pub mod Sni
pub mod Safety
pub mod Encoding
pub mod RoundTrip
pub mod Routing
pub mod Labels
