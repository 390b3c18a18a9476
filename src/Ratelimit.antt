-- ===== src/Ratelimit.antt =====
-- internal/ratelimit: the per-IP exponential backoff.
pub mod Clock
pub mod Delay
pub mod Limiter
pub mod Refinement
pub mod Attempts
pub mod HeadStart
pub mod Guesses
pub mod Moves
pub mod Lookups
pub mod Exclusion
pub mod Safety
pub mod Races
mod Tests
