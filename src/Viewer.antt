-- ===== src/Viewer.antt =====
-- claude_tap/viewer.py: the page with a trace in it.
pub mod Records
pub mod Embedding
mod Tests
