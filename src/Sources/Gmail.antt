-- ===== src/Sources/Gmail.antt =====
-- src/sources/gsuite/app_gmail.go: what is read from messages. The chunks of threads are in Chunks.
pub mod Visible
pub mod Threads
