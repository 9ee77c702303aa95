-- ===== src/Sources/Notebook.antt =====
-- src/sources/notebook: local notes, PDF files and pictures.
pub mod ChunkText
pub mod Files
pub mod Entries
pub mod Scan
pub mod Paths
pub mod Tools
