-- ===== src/Http2.antt =====
-- Observing HTTP/2 in both directions of a connection: src/tcp_proxy/h2_parser.rs.
pub mod Frame
pub mod Payload
pub mod Event
pub mod Stream
pub mod Buffer
pub mod Handlers
pub mod Observer
pub mod Wire
pub mod Preface
