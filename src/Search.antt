-- ===== src/Search.antt =====
-- The global search index: src/search_store.go, src/search_store_init.go and src/search_mcp.go.
pub mod Tables
pub mod Exec
pub mod Store
pub mod Weights
pub mod Query
pub mod Results
pub mod Tool
pub mod Profile
