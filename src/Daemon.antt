-- ===== src/Daemon.antt =====
-- src/runtime.go and src/indexer.go: the daemon.
pub mod Coordinator
pub mod Indexer
pub mod Pool
pub mod Registry
pub mod Services
