-- ===== src/Forward.antt =====
-- claude_tap/forward_proxy.py: the bytes of its connections, the requests in them, what is sent
-- upstream and what the client gets.
pub mod Wire
pub mod Reading
pub mod Exchange
pub mod Upgrade
pub mod Tunnel
pub mod Client
mod Tests
