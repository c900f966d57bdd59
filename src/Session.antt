-- ===== src/Session.antt =====
-- src/session: the state machine, the disconnect policy, the reconnect policy and the session.
pub mod State
pub mod Cause
pub mod Reconnect
pub mod Runtime
pub mod Registry
pub mod Manager
mod Tests
