-- ===== src/Server.antt =====
-- internal/server: authentication callbacks, channel dispatch and local port forwarding.
pub mod Config
pub mod Dispatch
pub mod Forward
pub mod Auth
pub mod Connection
pub mod Serve
mod Tests
mod LoginTests
