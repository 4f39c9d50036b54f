-- ===== src/Tests.antt =====
-- The theorems at concrete inputs, and runs of the model on inputs that can be followed in the source.
mod Tls
mod Config
mod Http1
mod Http2
mod Initial
mod Fixtures
mod Routing
mod Peeking
mod Process
mod Upgrade
mod Reload
