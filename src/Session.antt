-- ===== src/Session.antt =====
-- internal/session: the requests on a session channel, on the wire and in the state machine.
pub mod Wire
pub mod Env
pub mod Requests
pub mod Exit
pub mod Child
pub mod Sftp
pub mod Handle
pub mod Resize
pub mod Pty
mod Tests
