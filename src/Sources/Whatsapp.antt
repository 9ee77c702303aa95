-- ===== src/Sources/Whatsapp.antt =====
-- src/sources/whatsapp.
pub mod Fuzzy
pub mod Names
