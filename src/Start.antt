-- ===== src/Start.antt =====
-- cmd/minisshd: from the command line to the accept loop.
pub mod Ran
pub mod Settings
pub mod World
pub mod Run
pub mod Settled
pub mod Ready
pub mod Output
pub mod Printed
pub mod Offered
pub mod Causes
pub mod Stops
pub mod Exits
pub mod Drawn
pub mod Reloader
pub mod Served
mod Tests
