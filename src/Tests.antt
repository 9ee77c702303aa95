-- ===== src/Tests.antt =====
-- Runs of the definitions on concrete inputs, and the theorems applied there.
mod Config
mod Core
mod Browser
mod Tools
mod Search
mod Queries
mod Daemon
mod Gmail
mod Pool
mod Sources
mod Notebook
