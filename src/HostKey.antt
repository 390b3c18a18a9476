-- ===== src/HostKey.antt =====
-- internal/hostkey/hostkey.go: `LoadOrGenerate` over the calls of package os that it makes.
pub mod Files
pub mod Load
pub mod Existing
pub mod Generated
pub mod Tests
