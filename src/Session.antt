-- ===== src/Session.antt =====
-- Sessions of the tap: the id in the request headers (Claw), the index of sessions (Index), the
-- writer of one trace (Trace), and the dispatcher that ties them together (Dispatcher).
pub mod Claw
pub mod Index
pub mod Trace
pub mod Dispatcher
mod Tests
