-- ===== src/Proxy.antt =====
-- claude_tap/proxy.py: the reverse proxy.
pub mod Headers
pub mod Paths
pub mod Websocket
pub mod Records
pub mod Messages
pub mod Handler
pub mod Relay
pub mod Entry
mod Tests
