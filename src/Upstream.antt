-- ===== src/Upstream.antt =====
-- Where requests go: a configuration file (Config), or the active model of the gateway's database
-- (Llm reads it, Gateway keeps it).
pub mod Config
pub mod Llm
pub mod Gateway
mod Tests
