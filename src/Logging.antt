-- ===== src/Logging.antt =====
-- internal/logging: events, their encodings, and the password scrub.
pub mod Line
pub mod Scrub
pub mod Events
mod Tests
