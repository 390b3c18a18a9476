-- ===== src/Auth.antt =====
-- internal/auth: credentials, the resolution of settings, and the accepted public keys.
pub mod Credentials
pub mod Resolve
pub mod Methods
pub mod Keyset
mod Tests
