-- ===== src/Command.antt =====
-- claude_tap/cli.py: how a client is started, and the sessions that are removed. The parsing of the
-- command line, the processes and the output are left out.
pub mod Launch
pub mod Entries
pub mod Bypass
pub mod Cleanup
mod Tests
