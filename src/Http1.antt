-- ===== src/Http1.antt =====
-- HTTP/1 on the wire: the quick look at a request's headers that routing needs, WebSocket frames,
-- and the observer of both directions of a connection: src/tcp_proxy/h1_initial_parser.rs and
-- src/tcp_proxy/h1_parser.rs.
pub mod Initial
pub mod Frame
pub mod Message
pub mod Observer
