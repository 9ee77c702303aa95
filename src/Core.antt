-- ===== src/Core.antt =====
-- src/core: what the sources and the daemon share.
pub mod RateLimiter
pub mod Config
pub mod SecureAdder
pub mod Tools
pub mod LogTrim
pub mod AuditLog
