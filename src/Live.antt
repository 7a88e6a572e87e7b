-- ===== src/Live.antt =====
-- claude_tap/live.py: the live viewer's server.
pub mod Buffers
pub mod Loading
pub mod Requests
mod Tests
