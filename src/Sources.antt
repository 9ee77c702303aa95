-- ===== src/Sources.antt =====
-- src/sources: what the sources read, how they cut it into entries of the search index, and their tools.
pub mod Text
pub mod Split
pub mod Chunks
pub mod Notebook
pub mod Whatsapp
pub mod Gmail
pub mod BrowserHistory
